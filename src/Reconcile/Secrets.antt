-- ===== src/Reconcile/Secrets.antt =====
-- What the check of the references finds, and the runtimes that a change of a Secret wakes:
-- mapSecretToRuntimes of internal/controller/trussiumruntime_controller.go.
use trussium_operator.Prelude.{
  ◌≡◌, refl, ◌⊎◌, inl, inr, String, Bool, true, false, Option, none, some, List, [], ◌∷◌, map,
  arith, contains, ◌==◌, eq_iff, Bool-cases, if◌then◌else◌,
}
use trussium_operator.Prelude.Sort.Unique.{contains-sort}
use trussium_operator.Kube.{NamespacedName}
use trussium_operator.Kube.Errors.{Error, Result, ok, err}
use trussium_operator.Api.{TrussiumRuntime, TrussiumRuntimeList, SecretKeyReference, NamedReference}
use trussium_operator.Status.References.{
  add_name, add_references, credential_name, unique_names, referenced_secret_names,
  runtime_references_secret,
}
use trussium_operator.Events.{runtime_key}
use trussium_operator.Reconcile.Platform.{Platform}
use trussium_operator.Reconcile.Monad.{World, M, ◌>>=◌, pure, reading}

-- The loop over the listed runtimes.
unfoldable pub requests_for : String → List TrussiumRuntime → List NamespacedName
requests_for secret [] = []
requests_for secret (r ∷ rest) =
    if runtime_references_secret r secret
    then runtime_key r ∷ requests_for secret rest
    else requests_for secret rest

abbrev pub requests_from : String → Result TrussiumRuntimeList → List NamespacedName
requests_from secret (err e) = []
requests_from secret (ok l) = requests_for secret l.items

module _ (p : Platform) where
  -- The Secret is given by its namespace and name.
  unfoldable pub map_secret_to_runtimes : NamespacedName → M p.Cluster (List NamespacedName)
  map_secret_to_runtimes secret = do
    listed ← reading (p.list_runtimes secret.namespace)
    pure (requests_from secret.name listed)

contains-add_name :
    (names : List String) (x a : String)
    → contains (add_name names x) a ≡ (if x == a then true else contains names a)
contains-add_name names x a = ground (arith, eq_iff x a)

-- Some image-pull reference has the name.
abbrev pub is_pulled : String → List NamedReference → Bool
is_pulled a [] = false
is_pulled a (n ∷ rest) = if n.name == a then true else is_pulled a rest

-- The provider's credentials are in the Secret.
abbrev pub is_credential : String → Option SecretKeyReference → Bool
is_credential a none = false
is_credential a (some s) = s.name == a

contains-add_references :
    (rest : List NamedReference) (names : List String) (a : String)
    → contains (add_references names rest) a ≡ (if contains names a then true else is_pulled a rest)
unfolding add_references
contains-add_references [] names a = ground arith
contains-add_references (n ∷ rest) names a = ground (
  arith,
  contains-add_references rest (add_name names n.name) a,
  contains-add_name names n.name a,
)

contains-credential_name :
    (c : Option SecretKeyReference) (a : String)
    → contains (credential_name c) a ≡ is_credential a c
contains-credential_name none a = refl
contains-credential_name (some s) a = ground arith

-- A runtime references a Secret exactly when it takes its provider credentials from it or names it
-- among its image-pull Secrets.
pub references_secret_iff :
    (r : TrussiumRuntime) (a : String)
    → runtime_references_secret r a ≡ (
        if is_credential a r.spec.provider.credentials_secret_ref
        then true
        else is_pulled a r.spec.image_pull_secrets)
unfolding runtime_references_secret referenced_secret_names unique_names
references_secret_iff r a =
    rw
      (
        contains-sort,
        contains-add_references r.spec.image_pull_secrets
            (credential_name r.spec.provider.credentials_secret_ref) a,
        contains-credential_name r.spec.provider.credentials_secret_ref a,
      )
      refl

-- The runtime names the Secret: its provider credentials are in it, or it is an image-pull Secret.
abbrev pub Names : TrussiumRuntime → String → Type 0
Names r a =
    (is_credential a r.spec.provider.credentials_secret_ref ≡ true)
    ⊎ (is_pulled a r.spec.image_pull_secrets ≡ true)

-- The listed runtimes that name the Secret, in order.
abbrev pub Naming : String → List TrussiumRuntime → List TrussiumRuntime → Type 0
Naming a [] chosen = chosen ≡ []
Naming a (r ∷ rest) chosen =
    ((later : List TrussiumRuntime) × Names r a × (chosen ≡ r ∷ later) × Naming a rest later)
    ⊎ (¬ Names r a × Naming a rest chosen)

requests_for-Naming :
    (a : String) (rs : List TrussiumRuntime)
    → (chosen : List TrussiumRuntime) × Naming a rs chosen
      × (requests_for a rs ≡ map runtime_key chosen)
unfolding requests_for
requests_for-Naming a [] = ([], refl, refl)
requests_for-Naming a (r ∷ rest) =
    let (chosen, naming, same) = requests_for-Naming a rest in
    elim (Bool-cases (is_credential a r.spec.provider.credentials_secret_ref)) [
      | inl c ↦ (
        r ∷ chosen,
        inl (chosen, inl c, refl, naming),
        rw (references_secret_iff r a, c, same) refl,
      )
      | inr c ↦ elim (Bool-cases (is_pulled a r.spec.image_pull_secrets)) [
        | inl d ↦ (
          r ∷ chosen,
          inl (chosen, inr d, refl, naming),
          rw (references_secret_iff r a, c, d, same) refl,
        )
        | inr d ↦
            (chosen, inr (λ h. ground arith, naming), rw (references_secret_iff r a, c, d) same)
      ]
    ]

module _ (p : Platform) where
  -- A change of a Secret wakes exactly the listed runtimes of its namespace that name it, as
  -- provider credentials or as an image-pull Secret, each once and in the list's order; where the
  -- list cannot be read, none. Nothing is written and no Event is emitted.
  pub map_secret_to_runtimes_lem :
      (secret : NamespacedName) (w : World p.Cluster)
      → let after = map_secret_to_runtimes p secret w in
        (after.1.writes ≡ w.writes)
        × (after.1.events ≡ w.events)
        × (((e : Error) × ((p.list_runtimes secret.namespace w.cluster).0 ≡ err e) × (after.0 ≡ []))
            ⊎ ((l : TrussiumRuntimeList) × (chosen : List TrussiumRuntime) × ((p.list_runtimes
                    secret.namespace w.cluster).0
                  ≡ ok l)
                × Naming secret.name l.items chosen
                × (after.0 ≡ map runtime_key chosen)))
  unfolding map_secret_to_runtimes
  map_secret_to_runtimes_lem secret w =
      (refl, refl, go (p.list_runtimes secret.namespace w.cluster).0 refl)
    where
      go :
          (x : Result TrussiumRuntimeList)
          → (p.list_runtimes secret.namespace w.cluster).0 ≡ x
          → ((e : Error) × ((p.list_runtimes secret.namespace w.cluster).0 ≡ err e)
              × (requests_from secret.name (p.list_runtimes secret.namespace w.cluster).0 ≡ []))
            ⊎ ((l : TrussiumRuntimeList) × (chosen : List TrussiumRuntime) × ((p.list_runtimes
                    secret.namespace w.cluster).0
                  ≡ ok l)
                × Naming secret.name l.items chosen
                × (requests_from secret.name (p.list_runtimes secret.namespace w.cluster).0
                    ≡ map runtime_key chosen))
      go (err e) h = inl (e, h, rw h refl)
      go (ok l) h =
          let (chosen, naming, same) = requests_for-Naming secret.name l.items in
          inr (l, chosen, h, naming, rw h same)
