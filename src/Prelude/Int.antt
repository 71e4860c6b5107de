-- ===== src/Prelude/Int.antt =====
-- Go's signed integers: ℤ, with the wrap-around of a sum in int64 written out. `negsuc n` is
-- -(n + 1).
use trussium_operator.Prelude.{
  ℕ, suc, ◌+◌, ◌-◌, ◌%◌, ◌^◌, ◌≤◌, ◌<◌, ◌≡◌, ◌↔◌, Bool, true, false, arith, ltb, leb, nat_eqb,
  if◌then◌else◌,
}

pub data ℤ : Type 0 where
  pos : ℕ → ℤ
  negsuc : ℕ → ℤ

abbrev pub pos_part : ℤ → ℕ
pos_part (pos n) = n
pos_part (negsuc n) = 0

abbrev pub neg_part : ℤ → ℕ
neg_part (pos n) = 0
neg_part (negsuc n) = suc n

-- a - b, as an integer.
abbrev pub sub_ℕ : ℕ → ℕ → ℤ
sub_ℕ a b = if leb b a then pos (a - b) else negsuc (b - a - 1)

infixl 65 ◌+ℤ◌
infix 50 ◌≤ℤ◌ ◌==ℤ◌
abbrev pub ◌+ℤ◌ : ℤ → ℤ → ℤ
a +ℤ b = sub_ℕ (pos_part a + pos_part b) (neg_part a + neg_part b)

abbrev pub ◌≤ℤ◌ : ℤ → ℤ → Type 0
a ≤ℤ b = pos_part a + neg_part b ≤ pos_part b + neg_part a

-- Shut, so that proofs read the tests through their lemmas.
unfoldable pub ltb_ℤ : ℤ → ℤ → Bool
ltb_ℤ a b = ltb (pos_part a + neg_part b) (pos_part b + neg_part a)

unfoldable pub ◌==ℤ◌ : ℤ → ℤ → Bool
pos a ==ℤ pos b = nat_eqb a b
negsuc a ==ℤ negsuc b = nat_eqb a b
_ ==ℤ _ = false

pub ==ℤ_iff : (a b : ℤ) → ((a ==ℤ b) ≡ true) ↔ (a ≡ b)
unfolding ◌==ℤ◌
==ℤ_iff a b = ground arith

pub ltb_ℤ-false : (a b : ℤ) → (ltb_ℤ a b ≡ false) ↔ (b ≤ℤ a)
unfolding ltb_ℤ
ltb_ℤ-false a b = ground arith

-- The values of an int32.
pub record IsInt32 (a : ℤ) : Type 0 where
  pub above : pos_part a < 2 ^ 31
  pub below : neg_part a ≤ 2 ^ 31

-- A sum in int64: the two's complement of the exact sum modulo 2 ^ 64.
abbrev pub wrap64 : ℤ → ℤ
wrap64 (pos n) = let r = n % 2 ^ 64 in if ltb r (2 ^ 63) then pos r else negsuc (2 ^ 64 - r - 1)
wrap64 (negsuc n) =
    let r = 2 ^ 64 - 1 - n % 2 ^ 64 in if ltb r (2 ^ 63) then pos r else negsuc (2 ^ 64 - r - 1)
