-- ===== src/Prelude/Sort/Unique.antt =====
-- Sorting distinct texts gives the one ascending list of them.
use trussium_operator.Prelude.{
  ◌≡◌, refl, sym, ap, subst, ◌∙◌, inl, inr, String, true, false, List, [], ◌∷◌, arith, contains,
  ◌==◌, eq_iff, eq_refl, Bool-cases, if◌then◌else◌,
}
use trussium_operator.Prelude.Sort.{str_leb, sort_insert, sort}
use trussium_operator.Prelude.Sort.Order.{
  Before, Before-trans, Before-irrefl, str_leb-cases, str_leb-flip, contains-false,
}

-- Every text of the list comes strictly after `x`.
abbrev pub AllAfter : String → List String → Type 0
AllAfter x [] = Unit
AllAfter x (y ∷ ys) = Before x y × AllAfter x ys

-- Strictly ascending.
abbrev pub IsAscending : List String → Type 0
IsAscending [] = Unit
IsAscending (x ∷ xs) = AllAfter x xs × IsAscending xs

AllAfter-trans : (x y : String) (ys : List String) → Before x y → AllAfter y ys → AllAfter x ys
AllAfter-trans x y [] h a = tt
AllAfter-trans x y (z ∷ zs) h (b, a) = (Before-trans x y z h b, AllAfter-trans x y zs h a)

AllAfter-insert :
    (x y : String) (ys : List String) → Before x y → AllAfter x ys → AllAfter x (sort_insert y ys)
unfolding sort_insert
AllAfter-insert x y [] h a = (h, tt)
AllAfter-insert x y (z ∷ zs) h (b, a) = elim (Bool-cases (str_leb y z)) [
  | inl e ↦ rw e (h, (b, a))
  | inr e ↦ rw e (b, AllAfter-insert x y zs h a)
]

insert-IsAscending :
    (x : String) (xs : List String)
    → contains xs x ≡ false
    → IsAscending xs
    → IsAscending (sort_insert x xs)
unfolding sort_insert
insert-IsAscending x [] n a = (tt, tt)
insert-IsAscending x (y ∷ ys) n (after, a) = elim (Bool-cases (str_leb x y)) [
  | inl e ↦ rw e (
    (
      str_leb-cases x y e (contains-false x y ys n).0,
      AllAfter-trans x y ys (str_leb-cases x y e (contains-false x y ys n).0) after,
    ),
    (after, a),
  )
  | inr e ↦ rw e (
    AllAfter-insert y x ys (str_leb-flip x y e) after,
    insert-IsAscending x ys (contains-false x y ys n).1 a,
  )
]

-- No text stands twice.
abbrev pub IsDistinct : List String → Type 0
IsDistinct [] = Unit
IsDistinct (x ∷ xs) = (contains xs x ≡ false) × IsDistinct xs

contains-sort_insert :
    (x a : String) (xs : List String)
    → contains (sort_insert x xs) a ≡ (if x == a then true else contains xs a)
unfolding sort_insert
contains-sort_insert x a [] = refl
contains-sort_insert x a (y ∷ ys) = ground (arith, contains-sort_insert x a ys)

-- Sorting keeps the elements.
pub contains-sort : (xs : List String) (a : String) → contains (sort xs) a ≡ contains xs a
unfolding sort
contains-sort [] a = refl
contains-sort (x ∷ xs) a = ground (arith, contains-sort_insert x a (sort xs), contains-sort xs a)

-- Distinct texts are sorted into strictly ascending order.
pub sort-IsAscending : (xs : List String) → IsDistinct xs → IsAscending (sort xs)
unfolding sort
sort-IsAscending [] d = tt
sort-IsAscending (x ∷ xs) (n, d) =
    insert-IsAscending x (sort xs) (contains-sort xs x ∙ n) (sort-IsAscending xs d)

contains_after :
    (x y : String) (ys : List String) → AllAfter x ys → contains ys y ≡ true → Before x y
contains_after x y [] a h = cc
contains_after x y (z ∷ zs) (b, a) h = elim (Bool-cases (z == y)) [
  | inl e ↦ subst (Before x) ((eq_iff z y).0 e) b
  | inr e ↦ contains_after x y zs a (rw e at h)
]

not_after : (x y : String) (ys : List String) → AllAfter y ys → Before x y → contains ys x ≡ false
not_after x y ys a h = elim (Bool-cases (contains ys x)) [
  | inl e ↦ absurd (Before-irrefl x (Before-trans x y x h (contains_after y x ys a e)))
  | inr e ↦ e
]

-- The first of an ascending list stands once.
once : (x : String) (xs : List String) → AllAfter x xs → contains xs x ≡ false
once x xs a = elim (Bool-cases (contains xs x)) [
  | inl e ↦ absurd (Before-irrefl x (contains_after x x xs a e))
  | inr e ↦ e
]

heads-equal :
    (x y : String) (xs ys : List String)
    → AllAfter x xs
    → AllAfter y ys
    → contains (y ∷ ys) x ≡ true
    → contains (x ∷ xs) y ≡ true
    → x ≡ y
heads-equal x y xs ys a b h g = elim (Bool-cases (x == y)) [
  | inl e ↦ (eq_iff x y).0 e
  | inr e ↦
      let later : contains ys x ≡ true = ground (arith, h, e, eq_iff x y, eq_iff y x) in
      let earlier : contains xs y ≡ true = ground (arith, g, e) in
      absurd (
        Before-irrefl x
          (Before-trans x y x (contains_after x y xs a earlier) (contains_after y x ys b later)))
]

tails-same :
    (x : String) (xs ys : List String)
    → AllAfter x xs
    → AllAfter x ys
    → ((t : String) → contains (x ∷ xs) t ≡ contains (x ∷ ys) t)
    → (t : String) → contains xs t ≡ contains ys t
tails-same x xs ys a b same t = elim (Bool-cases (x == t)) [
  | inl e ↦
      subst (λ u. contains xs u ≡ contains ys u) ((eq_iff x t).0 e)
        (once x xs a ∙ sym (once x ys b))
  | inr e ↦ rw e at (same t)
]

-- Ascending lists with the same elements are the same list.
pub ascending_unique :
    (xs ys : List String)
    → IsAscending xs
    → IsAscending ys
    → ((a : String) → contains xs a ≡ contains ys a)
    → xs ≡ ys
ascending_unique [] [] p q same = refl
ascending_unique [] (y ∷ ys) p q same = ground (arith, same y, eq_refl y)
ascending_unique (x ∷ xs) [] p q same = ground (arith, same x, eq_refl x)
ascending_unique (x ∷ xs) (y ∷ ys) (a, p) (b, q) same =
    subst
      (λ z.
        AllAfter z ys
        → ((t : String) → contains (x ∷ xs) t ≡ contains (z ∷ ys) t)
        → (x ∷ xs) ≡ z ∷ ys)
      (heads-equal x y xs ys a b (sym (same x) ∙ rw (eq_refl x) refl)
        (same y ∙ rw (eq_refl y) refl))
      (λ b' same'. ap (◌∷◌ x) (ascending_unique xs ys p q (tails-same x xs ys a b' same'))) b same
