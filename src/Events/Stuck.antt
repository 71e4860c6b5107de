-- ===== src/Events/Stuck.antt =====
-- The Upgrading condition while the specification asks for the last successful image.
use trussium_operator.Prelude.{ℕ, ◌≡◌, ◌≢◌, ◌∙◌, sym, ap, subst, String, some, List, [], ◌∷◌}
use trussium_operator.Kube.Condition.{ConditionApi, IsConditionApi}
use trussium_operator.Kube.Errors.{Error}
use trussium_operator.Api.{TrussiumRuntime, TrussiumRuntimeStatus}
use trussium_operator.Resources.Identity.{runtime_image}
use trussium_operator.Status.References.{ReferenceValidationResult, valid_reference_validation}
use trussium_operator.Status.Rollout.{RuntimeObservation}
use trussium_operator.Status.Conditions.Lookup.{Verdict, verdict, read, read-set}
use trussium_operator.Status.Conditions.Times.{preserve-runtime_condition}
use trussium_operator.Status.Conditions.Written.{Written-keeps}
use trussium_operator.Status.Base.{build_base_runtime_status}
use trussium_operator.Status.Base.Kept.{build_base-last}
use trussium_operator.Status.Upgrade.Tracking.{read-apply_upgrade_same}
use trussium_operator.Status.Build.{build_runtime_status, build_reconciliation_failure_status}
use trussium_operator.Status.Build.Written.{build_base-Plain}
use trussium_operator.Events.Rounds.{Round, observed, failed, at, built, stored}
use trussium_operator.Events.Once.{done_stays}
use trussium_operator.Events.Latest.{Turn, after}

-- Every turn's specification asks for the image.
abbrev pub AllAsk : String → List Turn → Type 0
AllAsk image [] = Unit
AllAsk image (t ∷ rest) = (runtime_image t.runtime.spec.image ≡ image) × AllAsk image rest

module _ {m : ConditionApi} (laws : IsConditionApi m) where
  base-keeps :
      (r : TrussiumRuntime) (s : TrussiumRuntimeStatus) (now : ℕ) (o : RuntimeObservation)
      (v : ReferenceValidationResult)
      → read m (build_base_runtime_status m now (at r s) o v) "Upgrading" ≡ read m s "Upgrading"
  unfolding read
  base-keeps r s now o v = ap verdict (Written-keeps laws now (build_base-Plain m now (at r s) o v))

  build-keeps :
      (r : TrussiumRuntime) (s : TrussiumRuntimeStatus) (now : ℕ) (o : RuntimeObservation)
      (v : ReferenceValidationResult) {w : Verdict}
      → runtime_image r.spec.image ≡ s.last_successful_image
      → s.last_successful_image ≢ ""
      → read m s "Upgrading" ≡ some w
      → read m (build_runtime_status m now (at r s) o v) "Upgrading" ≡ some w
  unfolding build_runtime_status
  build-keeps r s now o v same named there =
      let base = build_base_runtime_status m now (at r s) o v in
      let last : base.last_successful_image ≡ s.last_successful_image =
        build_base-last m now (at r s) o v in
      read-apply_upgrade_same laws now (at r s) o.deployment base (same ∙ sym last)
        (subst (λ image. image ≢ "") (sym last) named) (base-keeps r s now o v ∙ there)

  failure-keeps :
      (r : TrussiumRuntime) (now : ℕ) (o : RuntimeObservation) (e : Error)
      → read m (build_reconciliation_failure_status m now r o e) "Upgrading"
        ≡ read m (build_runtime_status m now r o valid_reference_validation) "Upgrading"
  unfolding build_reconciliation_failure_status
  failure-keeps r now o e = simp (read-set laws now)

  built-keeps :
      (r : TrussiumRuntime) (x : Round) (s : TrussiumRuntimeStatus) {w : Verdict}
      → runtime_image r.spec.image ≡ s.last_successful_image
      → s.last_successful_image ≢ ""
      → read m s "Upgrading" ≡ some w
      → read m (built m r x s) "Upgrading" ≡ some w
  built-keeps r (observed now o v) s same named there = build-keeps r s now o v same named there
  built-keeps r (failed now o e) s same named there =
      failure-keeps (at r s) now o e
      ∙ build-keeps r s now o valid_reference_validation same named there

  -- While every specification asks for the last successful image, whose name is not empty, no number of
  -- reconciliations, failed ones among them, changes what the Upgrading condition says, its generation
  -- among it: an upgrade that was in progress stays reported so, whatever is observed.
  -- Conditions are set and found as the library documents it.
  pub upgrading_stays :
      (turns : List Turn) (s : TrussiumRuntimeStatus) {w : Verdict}
      → s.last_successful_image ≢ ""
      → AllAsk s.last_successful_image turns
      → read m s "Upgrading" ≡ some w
      → read m (after m turns s) "Upgrading" ≡ some w
  upgrading_stays [] s named asked there = there
  upgrading_stays (t ∷ rest) s named (same, asked) there =
      let next = stored m t.runtime t.round s in
      let last : s.last_successful_image ≡ next.last_successful_image =
        sym same ∙ done_stays laws t.runtime t.round s same in
      upgrading_stays rest next (subst (λ image. image ≢ "") last named)
        (subst (λ image. AllAsk image rest) last asked)
        ((preserve-runtime_condition laws s (built m t.runtime t.round s) "Upgrading").0
          ∙ built-keeps t.runtime t.round s same named there)
