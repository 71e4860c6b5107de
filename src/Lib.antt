-- ===== src/Lib.antt =====
-- A model of the Trussium operator, a Kubernetes controller that turns a TrussiumRuntime custom
-- resource into the objects that serve an AI runtime, and reports on them in the resource's status and
-- in Events.
--
-- One pass of the controller reads the TrussiumRuntime, checks the Secrets that it names, writes the
-- seven managed objects, observes the Deployment and the Service, computes a new status from the
-- observation, stores the status if it differs, and emits the Events of the transition. The parts, and
-- the files that model them:
--   * Api, Api/Schema: the structs of api/v1alpha1/trussiumruntime_types.go, and the schema markers
--     that theorems rely on. Kube and its children: the shapes of the Kubernetes objects, Go's errors,
--     and the library's conditions.
--   * Resources: internal/controller/runtime_resources.go. Identity has labels, image and scheduling
--     (runtimeLabels, mergedPodLabels, runtimeImage and others), Scale the replica counts, port and
--     grace period, Config the environment and its checksum, Deployments buildDeployment, and Objects
--     the other builders.
--   * Status: internal/controller/runtime_status.go. References has referencedSecretNames, Rollout
--     observeDeploymentRollout and deploymentFailure, Conditions the writes and comparisons of
--     conditions, Base buildBaseRuntimeStatus, Upgrade applyUpgradeStatus, and Build
--     buildRuntimeStatus and buildReconciliationFailureStatus. Under Base, Upgrade and Build, Writes
--     lists the condition writes of each branch, and Refinement and Settled compare such lists up
--     to the times of the conditions (Conditions/Timeless). Conditions/Written and Build/Written
--     follow the writes with their times.
--   * Events: internal/controller/runtime_events.go, each function as the list of the recorder's calls.
--     Rounds chains the statuses and the Events of a sequence of reconciliations of one specification,
--     and Latest the statuses where the specification changes in between.
--   * Reconcile: internal/controller/trussiumruntime_controller.go with the functions of
--     runtime_status.go that call the client, and internal/controller/metrics.go. Load
--     has validateSecretReferences and loadRuntimeObservation, Mutate the closures given to
--     CreateOrUpdate, Resources reconcileCoreResources and its seven steps, Update
--     updateRuntimeStatus, Pass Reconcile and its two helpers, Secrets mapSecretToRuntimes, and
--     Wiring SetupWithManager and the RBAC markers. Cluster is no part of the source: it says what
--     the API server holds for a runtime, and what the specification asks for.
--   * Manager: main of cmd/main.go. Options has the options that it computes from the flags, and
--     Startup the calls that it makes with them, up to the one that fails and exits.
--   * Tests: concrete instances of the parameters, and the theorems at concrete inputs.
-- A file's name is the part's, and a child's name says what it proves of it. Function names are the
-- source's in snake case; a helper that stands for a part of a Go function is named for what it does.
--
-- A pass is a function from a world to its result and the world after it. The world (Reconcile/Monad)
-- is the cluster, the Events emitted and the writing calls made, both in order. All that the operator
-- calls and does not implement is a parameter (Reconcile/Platform): every client call takes the
-- cluster to a result and the cluster after it, so that other controllers may act in between; also
-- SetControllerReference, semantic equality, IsNotFound and sha256. Theorems name the documented
-- behaviour that they need of these (IsConditionApi and SetsInPlace for conditions, IsEquality,
-- IsOwnership, ReadsOnly, IsWilling for a server that fails no call, IsStore for one that stores what
-- it is sent and that nobody else writes to, Serves for a pass that writes the objects and observes
-- them, OwnsByName for owner references that do not depend on the owner's status, and KeepsName for a
-- status update whose answer has the name that was sent). What the manager's library answers to main
-- is a parameter too.
--
-- Numbers: Go's int32 and int64 are integers, and the one sum that the code computes, the grace
-- period, wraps at 64 bits. Texts are native, their length counts bytes, and they are ordered by
-- bytes, as in Go. Printing a number peels one decimal digit per round and is given n + 1 rounds for
-- n, which is enough since n / 10 < n for n > 0. No other definition has fuel: all loops run over
-- lists.
--
-- Simplifications: values are immutable, so that a deep copy is the value. A nil and an empty slice
-- or map are one list, and a map is an association list, in which a write replaces the value of its
-- key. The instant is one number in a pass. The quoting of a Secret's name in a message has no escapes,
-- which names do not need. Affinity and compute resources are handed on as text.
--
-- Not modelled: parsing the command line, logging, and the registration of the scheme and of the
-- metrics, which only call libraries; the generated deep copies; and the queue of requests, which is
-- the library's.
pub mod Prelude
pub mod Kube
pub mod Api
pub mod Resources
pub mod Status
pub mod Events
pub mod Reconcile
pub mod Manager
pub mod Tests
