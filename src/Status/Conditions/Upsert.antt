-- ===== src/Status/Conditions/Upsert.antt =====
-- Lists of conditions under writes by type, in place or at the end: what setRuntimeCondition does to
-- the conditions when their times are left out.
use trussium_operator.Prelude.{
  ◌≡◌, refl, sym, ap, ◌∙◌, ◌⊎◌, inl, inr, String, Bool, true, false, Option, none, some, List, [],
  ◌∷◌, ◌==◌, arith, eq_iff, eq_refl, Bool-cases, if◌then◌else◌,
}
use trussium_operator.Kube.Condition.{Condition}

abbrev pub find : List Condition → String → Option Condition
find [] t = none
find (c ∷ cs) t = if c.type == t then some c else find cs t

unfoldable pub upsert : Condition → List Condition → List Condition
upsert c [] = c ∷ []
upsert c (d ∷ rest) = if d.type == c.type then c ∷ rest else d ∷ upsert c rest

-- The writes of a list, the first one first.
abbrev pub applied : List Condition → List Condition → List Condition
applied [] cs = cs
applied (w ∷ ws) cs = applied ws (upsert w cs)

-- Is a condition of the type there?
abbrev pub holds : String → List Condition → Bool
holds t [] = false
holds t (c ∷ cs) = if c.type == t then true else holds t cs

-- The types that are written are all there.
abbrev pub AllHeld : List Condition → List Condition → Type 0
AllHeld [] cs = Unit
AllHeld (w ∷ ws) cs = (holds w.type cs ≡ true) × AllHeld ws cs

pub find-upsert :
    (w : Condition) (cs : List Condition) (t : String)
    → find (upsert w cs) t ≡ (if w.type == t then some w else find cs t)
unfolding upsert
find-upsert w [] t = refl
find-upsert w (d ∷ cs) t =
    ground (arith, eq_iff d.type w.type, eq_iff d.type t, eq_iff w.type t, find-upsert w cs t)

holds-upsert :
    (w : Condition) (cs : List Condition) (t : String)
    → holds t (upsert w cs) ≡ (if w.type == t then true else holds t cs)
unfolding upsert
holds-upsert w [] t = refl
holds-upsert w (d ∷ cs) t =
    ground (arith, eq_iff d.type w.type, eq_iff d.type t, eq_iff w.type t, holds-upsert w cs t)

-- A later write of a type replaces an earlier one.
upsert-upsert :
    (w v : Condition) (cs : List Condition) → v.type ≡ w.type → upsert w (upsert v cs) ≡ upsert w cs
unfolding upsert
upsert-upsert w v [] e = ground (arith, eq_iff v.type w.type)
upsert-upsert w v (d ∷ cs) e = ground (
  arith,
  eq_iff v.type w.type,
  eq_iff d.type w.type,
  eq_iff d.type v.type,
  upsert-upsert w v cs e,
)

-- Writes of two types commute where the first one's type is there.
upsert_comm :
    (w v : Condition) (cs : List Condition)
    → (v.type == w.type) ≡ false
    → holds w.type cs ≡ true
    → upsert w (upsert v cs) ≡ upsert v (upsert w cs)
unfolding upsert
upsert_comm w v [] n h = cc
upsert_comm w v (d ∷ cs) n h = ground (
  arith,
  eq_iff v.type w.type,
  eq_iff w.type v.type,
  eq_iff d.type w.type,
  eq_iff d.type v.type,
  upsert_comm w v cs n,
)

-- Writing a condition that is there changes nothing.
pub upsert_found :
    (w : Condition) (cs : List Condition) → find cs w.type ≡ some w → upsert w cs ≡ cs
unfolding upsert
upsert_found w [] h = cc
upsert_found w (d ∷ cs) h = elim (Bool-cases (d.type == w.type)) [
  | inl e ↦ ground (arith, e)
  | inr e ↦ ground (arith, e, upsert_found w cs)
]

AllHeld-upsert : (w : Condition) (ws cs : List Condition) → AllHeld ws cs → AllHeld ws (upsert w cs)
AllHeld-upsert w [] cs h = tt
AllHeld-upsert w (v ∷ ws) cs (here, later) =
    (ground (arith, holds-upsert w cs v.type), AllHeld-upsert w ws cs later)

holds-applied :
    (t : String) (ws cs : List Condition) → holds t cs ≡ true → holds t (applied ws cs) ≡ true
holds-applied t [] cs h = h
holds-applied t (w ∷ ws) cs h =
    holds-applied t ws (upsert w cs) (ground (arith, holds-upsert w cs t))

-- The types that were written are there afterwards.
AllHeld-applied : (ws cs : List Condition) → AllHeld ws (applied ws cs)
AllHeld-applied [] cs = tt
AllHeld-applied (w ∷ ws) cs = (
  holds-applied w.type ws (upsert w cs) (ground (arith, holds-upsert w cs w.type, eq_refl w.type)),
  AllHeld-applied ws (upsert w cs),
)

-- A write before others either is replaced by them or may be made after them.
applied-upsert :
    (w : Condition) (ws cs : List Condition)
    → AllHeld ws cs
    → (applied ws (upsert w cs) ≡ applied ws cs)
      ⊎ ((holds w.type ws ≡ false) × (applied ws (upsert w cs) ≡ upsert w (applied ws cs)))
applied-upsert w [] cs h = inr (refl, refl)
applied-upsert w (v ∷ ws) cs (here, later) = elim (Bool-cases (v.type == w.type)) [
  | inl e ↦ inl (ap (applied ws) (upsert-upsert v w cs (sym ((eq_iff _ _).0 e))))
  | inr e ↦
      let swap =
        upsert_comm v w cs (ground (arith, e, eq_iff w.type v.type, eq_iff v.type w.type)) here in
      elim (applied-upsert w ws (upsert v cs) (AllHeld-upsert v ws cs later)) [
        | inl same ↦ inl (ap (applied ws) swap ∙ same)
        | inr (other, out) ↦ inr (rw e other, ap (applied ws) swap ∙ out)
      ]
]

-- A type that is not written is found as it was.
pub find-applied :
    (t : String) (ws cs : List Condition) → holds t ws ≡ false → find (applied ws cs) t ≡ find cs t
find-applied t [] cs h = refl
find-applied t (w ∷ ws) cs h = ground (arith, find-applied t ws (upsert w cs), find-upsert w cs t)

-- Making the same writes again changes nothing.
pub applied_again : (ws cs : List Condition) → applied ws (applied ws cs) ≡ applied ws cs
applied_again [] cs = refl
applied_again (w ∷ ws) cs =
    let y = applied ws (upsert w cs) in
    let again = applied_again ws (upsert w cs) in
    elim (applied-upsert w ws y (AllHeld-applied ws (upsert w cs))) [
      | inl same ↦ same ∙ again
      | inr (other, out) ↦
          out
          ∙ (ap (upsert w) again
              ∙ upsert_found w y (
                  find-applied w.type ws (upsert w cs) other
                  ∙ (find-upsert w cs w.type ∙ rw (eq_refl w.type))))
    ]

-- No type stands twice.
abbrev pub AllOnce : List Condition → Type 0
AllOnce [] = Unit
AllOnce (c ∷ cs) = (holds c.type cs ≡ false) × AllOnce cs

upsert-AllOnce : (w : Condition) (cs : List Condition) → AllOnce cs → AllOnce (upsert w cs)
unfolding upsert
upsert-AllOnce w [] once = (refl, tt)
upsert-AllOnce w (d ∷ cs) (new, once) = elim (Bool-cases (d.type == w.type)) [
  | inl e ↦ rw e (rw (← (eq_iff _ _).0 e) new, once)
  | inr e ↦ rw e (
    ground (arith, new, e, holds-upsert w cs d.type, eq_iff d.type w.type, eq_iff w.type d.type),
    upsert-AllOnce w cs once,
  )
]

pub applied-AllOnce : (ws cs : List Condition) → AllOnce cs → AllOnce (applied ws cs)
applied-AllOnce [] cs once = once
applied-AllOnce (w ∷ ws) cs once = applied-AllOnce ws (upsert w cs) (upsert-AllOnce w cs once)
