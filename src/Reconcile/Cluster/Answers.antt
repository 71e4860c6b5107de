-- ===== src/Reconcile/Cluster/Answers.antt =====
-- The reading steps of runtime_status.go against a store: they change nothing, and what they return
-- depends on what is held alone, and not on the runtime's status.
use trussium_operator.Prelude.{
  ◌≡◌, ◌<>◌, refl, sym, ap, subst, ◌∙◌, Option, String, List, [], ◌∷◌, Bool-cases, inl, inr,
}
use trussium_operator.Kube.{NamespacedName}
use trussium_operator.Kube.Errors.{Result, ok, err}
use trussium_operator.Kube.Workload.{Deployment}
use trussium_operator.Api.{TrussiumRuntime, TrussiumRuntimeStatus}
use trussium_operator.Status.References.{
  ReferenceValidationResult, referenced_secret_names, unique_names,
}
use trussium_operator.Events.{runtime_key}
use trussium_operator.Reconcile.Platform.{Platform}
use trussium_operator.Reconcile.Monad.{World, M, reading}
use trussium_operator.Reconcile.Load.{
  validate_secret_references, check_secrets, secret_checked, secret_key, load_runtime_observation,
  with_service, optional, slashed, paired,
}
use trussium_operator.Reconcile.Update.{with_status}
use trussium_operator.Reconcile.Cluster.{Managed, IsStore, held}

module _ {p : Platform} (store : IsStore p) (r : TrussiumRuntime) where
  service-Keeps :
      (x : Result (Option _)) (w : World p.Cluster)
      → held store r (with_service p (runtime_key r) x w).1 ≡ held store r w
  service-Keeps (ok d) w = store.service_read (runtime_key r) (runtime_key r) w.cluster
  service-Keeps (err e) w = refl

  -- To observe changes no managed object.
  pub load-Keeps :
      (w : World p.Cluster) → held store r (load_runtime_observation p r w).1 ≡ held store r w
  unfolding load_runtime_observation
  load-Keeps w = service-Keeps _ _ ∙ store.deployment_read (runtime_key r) (runtime_key r) w.cluster

  -- The same Deployment and Service are observed as one.
  service-Answers :
      (x : Result (Option Deployment)) (w w' : World p.Cluster)
      → (held store r w).service ≡ (held store r w').service
      → (with_service p (runtime_key r) x w).0 ≡ (with_service p (runtime_key r) x w').0
  service-Answers (ok d) w w' same =
      ap (λ found. paired d (optional p ("get managed Service " <> slashed (runtime_key r)) found))
        (store.service_answer (runtime_key r) w.cluster w'.cluster same)
  service-Answers (err e) w w' same = refl

  pub load-Answers :
      (w w' : World p.Cluster)
      → (held store r w).deployment ≡ (held store r w').deployment
      → (held store r w).service ≡ (held store r w').service
      → (load_runtime_observation p r w).0 ≡ (load_runtime_observation p r w').0
  unfolding load_runtime_observation
  load-Answers w w' deployment service =
      let k = runtime_key r in
      let v = (reading (p.get_deployment k) w).1 in
      let v' = (reading (p.get_deployment k) w').1 in
      ap
        (λ found.
          (with_service p k (optional p ("get managed Deployment " <> slashed k) found) v).0)
        (store.deployment_answer k w.cluster w'.cluster deployment)
      ∙ service-Answers _ v v' (
          ap (λ (x : Managed). x.service) (store.deployment_read k k w.cluster)
          ∙ (service
              ∙ ap (λ (x : Managed). x.service) (sym (store.deployment_read k k w'.cluster))))

  pub load-status :
      (s : TrussiumRuntimeStatus) (w : World p.Cluster)
      → load_runtime_observation p (with_status r s) w ≡ load_runtime_observation p r w
  unfolding load_runtime_observation
  load-status s w = refl

  checked-Keeps :
      (k : NamespacedName) (found : Result (Unit {0})) (m : M p.Cluster ReferenceValidationResult)
      (w : World p.Cluster)
      → held store r (m w).1 ≡ held store r w
      → held store r (secret_checked p k found m w).1 ≡ held store r w
  checked-Keeps k (ok u) m w more = more
  checked-Keeps k (err e) m w more = elim (Bool-cases (p.is_not_found e)) [
    | inl h ↦ rw h
    | inr h ↦ rw h
  ]

  check_secrets-Keeps :
      (names : List String) (w : World p.Cluster)
      → held store r (check_secrets p r names w).1 ≡ held store r w
  unfolding check_secrets
  check_secrets-Keeps [] w = refl
  check_secrets-Keeps (name ∷ names) w =
      let v = (reading (p.get_secret (secret_key r name)) w).1 in
      checked-Keeps (secret_key r name) _ (check_secrets p r names) v (check_secrets-Keeps names v)
      ∙ store.secret_read (secret_key r name) (runtime_key r) w.cluster

  -- To check the references changes nothing.
  pub validate-Keeps :
      (w : World p.Cluster) → held store r (validate_secret_references p r w).1 ≡ held store r w
  unfolding validate_secret_references
  validate-Keeps w = check_secrets-Keeps (referenced_secret_names r) w

  checked-Answers :
      (k : NamespacedName) (found found' : Result (Unit {0}))
      (m m' : M p.Cluster ReferenceValidationResult) (w w' : World p.Cluster)
      → found ≡ found'
      → (m w).0 ≡ (m' w').0
      → (secret_checked p k found m w).0 ≡ (secret_checked p k found' m' w').0
  checked-Answers k (ok u) (ok u') m m' w w' same more = more
  checked-Answers k (err e) (err e') m m' w w' same more =
      let at_one : e ≡ e' = cc in
      subst (λ x. (secret_checked p k (err e) m w).0 ≡ (secret_checked p k (err x) m' w').0) at_one
        (elim (Bool-cases (p.is_not_found e)) [ inl h ↦ rw h | inr h ↦ rw h ])
  checked-Answers k (ok u) (err e) m m' w w' same more = cc
  checked-Answers k (err e) (ok u) m m' w w' same more = cc

  check_secrets-Answers :
      (s : TrussiumRuntimeStatus) (names : List String) (w w' : World p.Cluster)
      → (held store r w).secret ≡ (held store r w').secret
      → (check_secrets p r names w).0 ≡ (check_secrets p (with_status r s) names w').0
  unfolding check_secrets
  check_secrets-Answers s [] w w' same = refl
  check_secrets-Answers s (name ∷ names) w w' same =
      let k = secret_key r name in
      let v = (reading (p.get_secret k) w).1 in
      let v' = (reading (p.get_secret k) w').1 in
      let kept = ap (λ (x : Managed). x.secret) (store.secret_read k (runtime_key r) w.cluster) in
      let kept' = ap (λ (x : Managed). x.secret) (store.secret_read k (runtime_key r) w'.cluster) in
      checked-Answers k _ _ _ _ v v'
        (store.secret_answer k (runtime_key r) w.cluster
          ∙ (ap (λ f. f k) same ∙ sym (store.secret_answer k (runtime_key r) w'.cluster)))
        (check_secrets-Answers s names v v' (kept ∙ (same ∙ sym kept')))

  -- The same answers about Secrets give the same references, whatever the status.
  pub validate-Answers :
      (s : TrussiumRuntimeStatus) (w w' : World p.Cluster)
      → (held store r w).secret ≡ (held store r w').secret
      → (validate_secret_references p r w).0 ≡ (validate_secret_references p (with_status r s) w').0
  unfolding validate_secret_references referenced_secret_names unique_names
  validate-Answers s w w' same = check_secrets-Answers s _ w w' same
