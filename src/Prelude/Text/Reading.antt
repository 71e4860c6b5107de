-- ===== src/Prelude/Text/Reading.antt =====
-- A decimal can be read back up to a colon.
use Prim.Native.Char.{Char, code}
use Prim.Native.String
use Prim.Native.String.append.{nil, cons}
use text.Mathlib.TextLemmas.{append_assoc}
use trussium_operator.Prelude.{
  ℕ, zero, suc, ◌+◌, ◌-◌, ◌*◌, ◌/◌, ◌%◌, ◌<◌, ◌≡◌, refl, sym, ap, ◌∙◌, inl, inr, String, ◌<>◌,
  false, Option, none, some, arith, nat_eqb, Bool-cases, if◌then◌else◌,
}
use trussium_operator.Prelude.Text.{digit_at, decimal_onto, decimal}

-- The number in front of the first colon, and what follows the colon.
abbrev pub parse : ℕ → String → Option (ℕ × String)
parse n Prim.Native.String.[] = none
parse n (Prim.Native.String.◌∷◌ c s) =
    let more = parse (n * 10 + (code c - 48)) s in if nat_eqb (code c) 58 then some (n, s) else more

parse-cons :
    (n d : ℕ) (c : Char) (s : String)
    → code c ≡ 48 + d
    → d < 10
    → parse n (Prim.Native.String.◌∷◌ c s) ≡ parse (n * 10 + d) s
parse-cons n d c s e h =
    let digit : nat_eqb (code c) 58 ≡ false = ground (arith, e, h) in
    let value : code c - 48 ≡ d = omega (arith, e) in rw (digit, value) refl

parse-one :
    (n d : ℕ) (c : Char) (s : String)
    → code c ≡ 48 + d
    → d < 10
    → parse n (Prim.Native.String.◌∷◌ c Prim.Native.String.[] <> s) ≡ parse (n * 10 + d) s
parse-one n d c s e h =
    ap (parse n) (cons c Prim.Native.String.[] s ∙ ap (Prim.Native.String.◌∷◌ c) (nil s))
    ∙ parse-cons n d c s e h

below_ten :
    (P : ℕ → Type 0)
    → P 0
    → P 1
    → P 2
    → P 3
    → P 4
    → P 5
    → P 6
    → P 7
    → P 8
    → P 9
    → (d : ℕ) → d < 10
    → P d
below_ten P a b c d e f g h i j zero l = a
below_ten P a b c d e f g h i j (suc zero) l = b
below_ten P a b c d e f g h i j (suc (suc zero)) l = c
below_ten P a b c d e f g h i j (suc (suc (suc zero))) l = d
below_ten P a b c d e f g h i j (suc (suc (suc (suc zero)))) l = e
below_ten P a b c d e f g h i j (suc (suc (suc (suc (suc zero))))) l = f
below_ten P a b c d e f g h i j (suc (suc (suc (suc (suc (suc zero)))))) l = g
below_ten P a b c d e f g h i j (suc (suc (suc (suc (suc (suc (suc zero))))))) l = h
below_ten P a b c d e f g h i j (suc (suc (suc (suc (suc (suc (suc (suc zero)))))))) l = i
below_ten P a b c d e f g h i j (suc (suc (suc (suc (suc (suc (suc (suc (suc zero))))))))) l = j
below_ten P a b c d e f g h i j (suc (suc (suc (suc (suc (suc (suc (suc (suc (suc n)))))))))) l =
    absurd (omega (arith, l))

parse-digit_at : (n d : ℕ) (s : String) → d < 10 → parse n (digit_at d <> s) ≡ parse (n * 10 + d) s
parse-digit_at n d s h =
    below_ten (λ d. parse n (digit_at d <> s) ≡ parse (n * 10 + d) s)
      (parse-one n 0 "0" s refl (omega arith)) (parse-one n 1 "1" s refl (omega arith))
      (parse-one n 2 "2" s refl (omega arith)) (parse-one n 3 "3" s refl (omega arith))
      (parse-one n 4 "4" s refl (omega arith)) (parse-one n 5 "5" s refl (omega arith))
      (parse-one n 6 "6" s refl (omega arith)) (parse-one n 7 "7" s refl (omega arith))
      (parse-one n 8 "8" s refl (omega arith)) (parse-one n 9 "9" s refl (omega arith)) d h

parse-decimal_onto :
    (rounds n : ℕ) (printed rest : String)
    → n < rounds
    → parse 0 (decimal_onto rounds n printed <> rest) ≡ parse n (printed <> rest)
unfolding decimal_onto
parse-decimal_onto zero n printed rest h = absurd (omega (arith, h))
parse-decimal_onto (suc rounds) n printed rest h = elim (Bool-cases (nat_eqb n 0)) [
  | inl e ↦
      let nothing : n ≡ 0 = ground (arith, e) in
      rw e (ap (λ k. parse k (printed <> rest)) (sym nothing))
  | inr e ↦
      let e' : 0 < n = ground (arith, e) in
      rw e (
        parse-decimal_onto rounds (n / 10) (digit_at (n % 10) <> printed) rest
          (omega (arith, h, e'))
        ∙ (ap (parse (n / 10)) (append_assoc (digit_at (n % 10)) printed rest)
            ∙ (parse-digit_at (n / 10) (n % 10) (printed <> rest) (omega arith)
                ∙ ap (λ k. parse k (printed <> rest)) (omega arith))))
]

parse-colon : (n : ℕ) (rest : String) → parse n (":" <> rest) ≡ some (n, rest)
parse-colon n rest =
    ap (parse n) (cons ":" Prim.Native.String.[] rest ∙ ap (Prim.Native.String.◌∷◌ ":") (nil rest))

-- A printed number is read back.
pub parse-decimal : (n : ℕ) (rest : String) → parse 0 (decimal n <> (":" <> rest)) ≡ some (n, rest)
unfolding decimal
parse-decimal n rest = elim (Bool-cases (nat_eqb n 0)) [
  | inl e ↦
      let nothing : n ≡ 0 = ground (arith, e) in
      rw e (
        parse-digit_at 0 0 (":" <> rest) (omega arith)
        ∙ (parse-colon 0 rest ∙ ap (λ (k : ℕ). some (k, rest)) (sym nothing)))
  | inr e ↦ rw e (
      parse-decimal_onto (suc n) n "" (":" <> rest) (omega arith)
      ∙ (ap (parse n) (nil (":" <> rest)) ∙ parse-colon n rest))
]

some_pair :
    {n m : ℕ} {s t : String}
    → Path (Option (ℕ × String)) (some (n, s)) (some (m, t))
    → (n ≡ m) × (s ≡ t)
some_pair h = ground (arith, h)

-- Printed numbers in front of a colon are equal only if the numbers are, and what follows.
pub decimal-inj :
    (n m : ℕ) (s t : String) → decimal n <> (":" <> s) ≡ decimal m <> (":" <> t) → (n ≡ m) × (s ≡ t)
decimal-inj n m s t h = some_pair (sym (parse-decimal n s) ∙ (ap (parse 0) h ∙ parse-decimal m t))

pub decimal-ne_empty : (n : ℕ) (s : String) → ¬ decimal n <> (":" <> s) ≡ ""
decimal-ne_empty n s h = ground (arith, sym (parse-decimal n s) ∙ ap (parse 0) h)
