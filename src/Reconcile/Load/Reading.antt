-- ===== src/Reconcile/Load/Reading.antt =====
-- The reading steps write nothing, and what the check of the references finds.
use trussium_operator.Prelude.{
  false, some, none, ◌<>◌, true, ◌≡◌, refl, ap, subst, ◌⊎◌, ◌++◌, String, List, [], ◌∷◌, Bool-cases,
  inl, inr, if◌then◌else◌,
}
use trussium_operator.Kube.{NamespacedName}
use trussium_operator.Kube.Errors.{wrap, Error, Result, ok, err}
use trussium_operator.Api.{TrussiumRuntime}
use trussium_operator.Status.References.{ReferenceValidationResult, referenced_secret_names}
use trussium_operator.Events.{runtime_key}
use trussium_operator.Reconcile.Platform.{Platform}
use trussium_operator.Reconcile.Monad.{World, M}
use trussium_operator.Reconcile.Load.{
  secret_key, secret_checked, check_secrets, validate_secret_references, with_service,
  load_runtime_observation,
}

-- Nothing is written, and no Event emitted, whatever the world.
abbrev pub Silent : {C A : Type 0} → M C A → Type 0
Silent {C} m = (w : World C) → ((m w).1.writes ≡ w.writes) × ((m w).1.events ≡ w.events)

module _ (p : Platform) where
  secret_checked-Silent :
      (k : NamespacedName) (found : Result (Unit {0})) (m : M p.Cluster ReferenceValidationResult)
      → Silent m
      → Silent (secret_checked p k found m)
  secret_checked-Silent k (ok u) m silent w = silent w
  secret_checked-Silent k (err e) m silent w = elim (Bool-cases (p.is_not_found e)) [
    | inl h ↦ rw h (refl, refl)
    | inr h ↦ rw h (refl, refl)
  ]

  check_secrets-Silent :
      (r : TrussiumRuntime) (names : List String) → Silent (check_secrets p r names)
  unfolding check_secrets
  check_secrets-Silent r [] w = (refl, refl)
  check_secrets-Silent r (name ∷ names) w =
      secret_checked-Silent (secret_key r name) _ (check_secrets p r names)
        (check_secrets-Silent r names) _

  pub validate-Silent : (r : TrussiumRuntime) → Silent (validate_secret_references p r)
  unfolding validate_secret_references
  validate-Silent r = check_secrets-Silent r (referenced_secret_names r)

  secret_checked-valid :
      (k : NamespacedName) (found : Result (Unit {0})) (m : M p.Cluster ReferenceValidationResult)
      → ((w : World p.Cluster) → (m w).0.valid ≡ true → (m w).0.error ≡ none)
      → (w : World p.Cluster) → (secret_checked p k found m w).0.valid ≡ true
      → (secret_checked p k found m w).0.error ≡ none
  secret_checked-valid k (ok u) m more w = more w
  secret_checked-valid k (err e) m more w = elim (Bool-cases (p.is_not_found e)) [
    | inl h ↦ rw h (λ g. refl)
    | inr h ↦ rw h (λ g. cc)
  ]

  check_secrets-valid :
      (r : TrussiumRuntime) (names : List String) (w : World p.Cluster)
      → (check_secrets p r names w).0.valid ≡ true
      → (check_secrets p r names w).0.error ≡ none
  unfolding check_secrets
  check_secrets-valid r [] w g = refl
  check_secrets-valid r (name ∷ names) w g =
      secret_checked-valid (secret_key r name) _ (check_secrets p r names)
        (check_secrets-valid r names) _ g

  -- Valid references come without an error.
  pub validate-valid :
      (r : TrussiumRuntime) (w : World p.Cluster)
      → (validate_secret_references p r w).0.valid ≡ true
      → (validate_secret_references p r w).0.error ≡ none
  unfolding validate_secret_references
  validate-valid r w = check_secrets-valid r (referenced_secret_names r) w

  with_service-Silent :
      (r : TrussiumRuntime) (x : Result _) → Silent (with_service p (runtime_key r) x)
  with_service-Silent r (ok d) w = (refl, refl)
  with_service-Silent r (err e) w = (refl, refl)

  pub load-Silent : (r : TrussiumRuntime) → Silent (load_runtime_observation p r)
  unfolding load_runtime_observation
  load-Silent r w = with_service-Silent r _ _

  -- The call that asks for a Secret of the runtime.
  abbrev pub asked : TrussiumRuntime → p.Cluster → String → Result (Unit {0})
  asked r c name = (p.get_secret (record { namespace = r.meta.namespace; name = name }) c).0

  abbrev pub AllFound : TrussiumRuntime → p.Cluster → List String → Type 0
  AllFound r c [] = Unit
  AllFound r c (name ∷ names) = (asked r c name ≡ ok tt) × AllFound r c names

  -- What is reported of a Secret whose call failed: that it is missing, or the error.
  abbrev pub refused : TrussiumRuntime → String → Error → ReferenceValidationResult
  refused r name e =
      if p.is_not_found e
      then record {
        valid = false;
        reason = "SecretNotFound";
        message = "Referenced Secret " <> ("\"" <> name <> "\"") <> " was not found.";
        error = none;
      }
      else record {
        valid = false;
        reason = "ReferenceCheckFailed";
        message = "Unable to verify referenced Secrets.";
        error = some (wrap ("get referenced Secret " <> (r.meta.namespace <> "/" <> name)) e);
      }

  abbrev pub all_available : ReferenceValidationResult
  all_available = record {
    valid = true;
    reason = "ReferencesResolved";
    message = "All referenced Secrets are available.";
    error = none;
  }

  -- All Secrets are there, or the first that is not is reported.
  abbrev pub Finds : TrussiumRuntime → p.Cluster → List String → ReferenceValidationResult → Type 0
  Finds r c names v =
      (AllFound r c names × (v ≡ all_available))
      ⊎ ((before : List String) × (name : String) × (rest : List String) × (e : Error) × (names
            ≡ before ++ (name ∷ rest))
          × AllFound r c before
          × (asked r c name ≡ err e)
          × (v ≡ refused r name e))

  -- Reading a Secret does not change the cluster.
  abbrev pub ReadsOnly : Type 0
  ReadsOnly = (k : NamespacedName) (c : p.Cluster) → (p.get_secret k c).1 ≡ c

  Finds-cons :
      (r : TrussiumRuntime) (c : p.Cluster) (name : String) (names : List String)
      (v : ReferenceValidationResult)
      → asked r c name ≡ ok tt
      → Finds r c names v
      → Finds r c (name ∷ names) v
  Finds-cons r c name names v here (inl (all, valid)) = inl ((here, all), valid)
  Finds-cons r c name names v here (inr (before, bad, rest, e, split, all, failed, said)) =
      inr (name ∷ before, bad, rest, e, ap (◌∷◌ name) split, (here, all), failed, said)

  pub check_secrets-Finds :
      ReadsOnly
      → (r : TrussiumRuntime) (names : List String) (w : World p.Cluster)
      → Finds r w.cluster names (check_secrets p r names w).0
  unfolding check_secrets
  check_secrets-Finds same r [] w = inl (tt, refl)
  check_secrets-Finds same r (name ∷ names) w = go (asked r w.cluster name) refl (
      subst
        (λ c.
          Finds r c names
            (check_secrets p r names
              (record w { cluster = (p.get_secret (secret_key r name) w.cluster).1 })).0)
        (same _ _)
        (check_secrets-Finds same r names
          (record w { cluster = (p.get_secret (secret_key r name) w.cluster).1 })))
    where
      go :
          (x : Result (Unit {0}))
          → asked r w.cluster name ≡ x
          → Finds r w.cluster names
              (check_secrets p r names
                (record w { cluster = (p.get_secret (secret_key r name) w.cluster).1 })).0
          → Finds r w.cluster
              (name ∷ names)
              (secret_checked p
                (secret_key r name)
                x
                (check_secrets p r names)
                (record w { cluster = (p.get_secret (secret_key r name) w.cluster).1 })).0
      go (ok tt) here later = Finds-cons r w.cluster name names _ here later
      go (err e) here later = inr (
        [],
        name,
        names,
        e,
        refl,
        tt,
        here,
        elim (Bool-cases (p.is_not_found e)) [ inl h ↦ rw h refl | inr h ↦ rw h refl ],
      )
