-- ===== src/Prelude/Sort/Order.antt =====
-- The order of texts is strict and total, and sorting is by it.
use Prim.Native.Nat.{Ordering, compare as compare_ℕ}
use Prim.Native.Char.{code}
use Prim.Native.String
use Prim.Native.String.{compare, then as first_unequal}
use Prim.Native.String.compare.{nil-cons, cons-nil, cons-cons}
use text.Mathlib.TextPositions.{compare_refl}
use trussium_operator.Prelude.{
  ℕ, ◌≡◌, refl, sym, ap, ◌∙◌, String, true, false, List, ◌∷◌, arith, contains, ◌==◌, eq_iff,
}
use trussium_operator.Prelude.Sort.{str_leb}

abbrev opposite : Ordering → Ordering
opposite Ordering.lt = Ordering.gt
opposite Ordering.eq = Ordering.eq
opposite Ordering.gt = Ordering.lt

opposite-first_unequal :
    (a b : Ordering) → opposite (first_unequal a b) ≡ first_unequal (opposite a) (opposite b)
opposite-first_unequal a b = ground arith

compare_ℕ-opposite : (m n : ℕ) → compare_ℕ n m ≡ opposite (compare_ℕ m n)
compare_ℕ-opposite m n = ground arith

compare-opposite : (s t : String) → compare t s ≡ opposite (compare s t)
compare-opposite Prim.Native.String.[] Prim.Native.String.[] = refl
compare-opposite Prim.Native.String.[] (Prim.Native.String.◌∷◌ d t) =
    cons-nil d t ∙ ap opposite (sym (nil-cons d t))
compare-opposite (Prim.Native.String.◌∷◌ c s) Prim.Native.String.[] =
    nil-cons c s ∙ ap opposite (sym (cons-nil c s))
compare-opposite (Prim.Native.String.◌∷◌ c s) (Prim.Native.String.◌∷◌ d t) =
    cons-cons d c t s
    ∙ (rw (compare_ℕ-opposite (code c) (code d), compare-opposite s t)
          (sym (opposite-first_unequal _ _))
        ∙ ap opposite (sym (cons-cons c d s t)))

-- Strictly before.
abbrev pub Before : String → String → Type 0
Before s t = compare s t ≡ Ordering.lt

none-Before_empty : (s : String) → ¬ Before s ""
none-Before_empty Prim.Native.String.[] h = cc
none-Before_empty (Prim.Native.String.◌∷◌ c s) h = ground (arith, sym (cons-nil c s) ∙ h)

first_unequal_trans :
    (a b c : ℕ) (x y z : Ordering)
    → (x ≡ Ordering.lt → y ≡ Ordering.lt → z ≡ Ordering.lt)
    → first_unequal (compare_ℕ a b) x ≡ Ordering.lt
    → first_unequal (compare_ℕ b c) y ≡ Ordering.lt
    → first_unequal (compare_ℕ a c) z ≡ Ordering.lt
first_unequal_trans a b c x y z h p q = ground (arith, h, p, q)

pub Before-trans : (s t u : String) → Before s t → Before t u → Before s u
Before-trans s Prim.Native.String.[] u p q = absurd (none-Before_empty s p)
Before-trans s (Prim.Native.String.◌∷◌ d t) Prim.Native.String.[] p q =
    absurd (none-Before_empty (Prim.Native.String.◌∷◌ d t) q)
Before-trans Prim.Native.String.[] (Prim.Native.String.◌∷◌ d t) (Prim.Native.String.◌∷◌ e u) p q =
    nil-cons e u
Before-trans (Prim.Native.String.◌∷◌ c s) (Prim.Native.String.◌∷◌ d t) (Prim.Native.String.◌∷◌ e u)
      p q =
    cons-cons c e s u
    ∙ first_unequal_trans (code c) (code d) (code e) _ _ _ (Before-trans s t u)
        (sym (cons-cons c d s t) ∙ p) (sym (cons-cons d e t u) ∙ q)

pub Before-irrefl : (s : String) → ¬ Before s s
Before-irrefl s h = ground (arith, sym (compare_refl s) ∙ h)

-- In the order's test, equal or strictly before.
pub str_leb-cases : (s t : String) → (str_leb s t ≡ true) → (s == t) ≡ false → Before s t
str_leb-cases s t h n = ground arith

pub contains-false :
    (x y : String) (ys : List String)
    → contains (y ∷ ys) x ≡ false
    → ((x == y) ≡ false) × (contains ys x ≡ false)
contains-false x y ys n = ground (arith, n, eq_iff x y, eq_iff y x)

pub str_leb-flip : (s t : String) → str_leb s t ≡ false → Before t s
str_leb-flip s t h = ground (arith, compare-opposite s t)
