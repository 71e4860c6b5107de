-- ===== src/Status/Conditions/Written.antt =====
-- Statuses that come from each other by calls of setRuntimeCondition: what such a chain leaves alone,
-- and the transition times that it can give.
use trussium_operator.Prelude.{
  ℕ, ◌≡◌, ◌∙◌, refl, sym, subst, ◌⊎◌, inl, inr, String, true, false, Option, none, some, List, ◌==◌,
  arith, eq_iff, Bool-cases,
}
use trussium_operator.Kube.Condition.{
  ConditionStatus, cond_true, cond_false, cond_unknown, status_eqb, Condition, ConditionApi,
  IsConditionApi, stamp,
}

-- The conditions after any number of calls of SetStatusCondition at one instant, each of a condition
-- of which `Allowed` holds.
pub data Written (m : ConditionApi) (now : ℕ) (Allowed : Condition → Type 0) (cs : List Condition)
    : List Condition → Type 0 where
  start : Written m now Allowed cs cs
  put :
      {ds : List Condition} (c : Condition)
      → Allowed c
      → Written m now Allowed cs ds
      → Written m now Allowed cs (m.set_status_condition now ds c)

-- The condition leaves its time to the library.
abbrev pub Untimed : Condition → Type 0
Untimed c = c.last_transition_time ≡ 0

-- And it is not the one of upgrades.
abbrev pub NoUpgrade : Condition → Type 0
NoUpgrade c = Untimed c × ((c.type == "Upgrading") ≡ false)

pub status_eqb_refl : (a : ConditionStatus) → status_eqb a a ≡ true
status_eqb_refl cond_true = refl
status_eqb_refl cond_false = refl
status_eqb_refl cond_unknown = refl

status_eqb_trans :
    (a b c : ConditionStatus)
    → status_eqb a b ≡ true
    → status_eqb b c ≡ true
    → status_eqb a c ≡ true
status_eqb_trans a b c g h = ground arith

module _ {m : ConditionApi} {now : ℕ} where
  pub Written-trans :
      {Allowed : Condition → Type 0} {cs ds es : List Condition}
      → Written m now Allowed cs ds
      → Written m now Allowed ds es
      → Written m now Allowed cs es
  Written-trans first start = first
  Written-trans first (put c a rest) = put c a (Written-trans first rest)

  pub Written-weaken :
      {Allowed Wider : Condition → Type 0} {cs ds : List Condition}
      → ((c : Condition) → Allowed c → Wider c)
      → Written m now Allowed cs ds
      → Written m now Wider cs ds
  Written-weaken h start = start
  Written-weaken h (put c a rest) = put c (h c a) (Written-weaken h rest)

module _ {m : ConditionApi} (laws : IsConditionApi m) (now : ℕ) where
  -- A condition of a type that is not written is as it was.
  pub Written-keeps :
      {cs ds : List Condition}
      → Written m now NoUpgrade cs ds
      → m.find_status_condition ds "Upgrading" ≡ m.find_status_condition cs "Upgrading"
  Written-keeps start = refl
  Written-keeps (put {ds} c (untimed, other) rest) =
      laws.find-set now ds c "Upgrading" ∙ rw other (Written-keeps rest)

  -- The condition is of this instant, or one of its status was there before.
  abbrev pub Dated : List Condition → String → Condition → Type 0
  Dated cs t c =
      (c.last_transition_time ≡ now)
      ⊎ ((p : Condition) × (m.find_status_condition cs t ≡ some p)
          × (status_eqb p.status c.status ≡ true))

  stamp-Dated :
      (cs : List Condition) (old : Option Condition) (c : Condition)
      → Untimed c
      → ((p : Condition) → old ≡ some p → Dated cs c.type p)
      → Dated cs c.type (stamp now old c)
  stamp-Dated cs none c untimed h = inl (rw untimed)
  stamp-Dated cs (some o) c untimed h = elim (Bool-cases (status_eqb o.status c.status)) [
    | inl e ↦ rw e (elim (h o refl) [
      | inl at_now ↦ inl at_now
      | inr (p, found, same) ↦ inr (p, found, status_eqb_trans p.status o.status c.status same e)
    ])
    | inr e ↦ rw e (inl (rw untimed))
  ]

  pub Written-Dated :
      {cs ds : List Condition}
      → Written m now Untimed cs ds
      → (t : String) (c : Condition) → m.find_status_condition ds t ≡ some c
      → Dated cs t c
  Written-Dated start t c found = inr (c, found, status_eqb_refl c.status)
  Written-Dated {cs} (put {ds} d untimed rest) t c found = elim (Bool-cases (d.type == t)) [
    | inl e ↦
        let same : d.type ≡ t = (eq_iff d.type t).0 e in
        let is : some (stamp now (m.find_status_condition ds d.type) d) ≡ some c =
          rw e at (sym (laws.find-set now ds d t) ∙ found) in
        let dated : Dated cs t (stamp now (m.find_status_condition ds d.type) d) =
          subst (λ u. Dated cs u (stamp now (m.find_status_condition ds d.type) d)) same
            (stamp-Dated cs (m.find_status_condition ds d.type) d untimed
              (λ p h. Written-Dated rest d.type p h)) in
        let same_condition : stamp now (m.find_status_condition ds d.type) d ≡ c = cc in
        subst (Dated cs t) same_condition dated
    | inr e ↦ Written-Dated rest t c (rw e at (sym (laws.find-set now ds d t) ∙ found))
  ]
