-- ===== src/Prelude/Text.antt =====
-- Go's decimal printing (`%d`, strconv.Itoa) on native texts.
pub mod Reading
use Prim.Native.String.{slice}
use trussium_operator.Prelude.{
  ℕ, zero, suc, ◌+◌, ◌/◌, ◌%◌, ◌≡◌, refl, String, ◌<>◌, nat_eqb, if◌then◌else◌,
}
use trussium_operator.Prelude.Int.{ℤ, pos, negsuc}

abbrev pub digit_at : ℕ → String
digit_at d = slice "0123456789" d (d + 1)

-- The digits of `n` in front of `printed`, the last one taken off in each round until nothing is left.
-- A number below 10 ^ k is printed in k rounds, so that `n + 1` of them are enough for `n`.
unfoldable pub decimal_onto : ℕ → ℕ → String → String
decimal_onto zero n printed = printed
decimal_onto (suc rounds) n printed =
    let all = decimal_onto rounds (n / 10) (digit_at (n % 10) <> printed) in
    if nat_eqb n 0 then printed else all

unfoldable pub decimal : ℕ → String
decimal n = if nat_eqb n 0 then "0" else decimal_onto (suc n) n ""

unfoldable pub itoa : ℤ → String
itoa (pos n) = decimal n
itoa (negsuc n) = "-" <> decimal (suc n)
