-- ===== src/Lib.antt =====
-- flox-controller: a Kubernetes operator that realises flox environments on the nodes of a cluster
-- and holds back the pods that consume them until their node has them.
--
-- The parts, and the files that model them:
--
-- - `internal/floxenv/floxenv.go`: a pod names environments by annotations. Floxenv has
--   `RefsFromAnnotations` (`refs_from_annotations`), the settings and `NixConfig`; Floxenv/Refs has
--   what the first one returns, by Floxenv/Sorting. All other parts read annotations through it.
-- - `internal/webhook/podflox.go`: at admission a pod that names environments gets a scheduling
--   gate and its containers get variables, volumes and mounts. Webhook has `Default`,
--   `injectFloxWait`, `injectNixBuild` and their helpers; Webhook/Containers the changes of one
--   container; Webhook/Gate, Variables, Store, Mounts, Injection, Repeated and Admission the
--   theorems, the last two on a pod that is admitted again.
-- - `internal/controller/podgate_controller.go`: a gated pod is released, narrowed to the nodes
--   that have all its environments. PodGate has `Reconcile`, `release`, `narrowToNodes`,
--   `gatedPodsForEnv` and their helpers; PodGate/Nodes, Narrowing, Release and Waiters the
--   theorems.
-- - `internal/controller/floxenv_controller.go`: an environment is realised on this node. The
--   manifest part (`parseManifest`, `manifestToTOML`, `parseFloxCatalogRef`,
--   `resolveFlakeInstalls`) is Manifest, with Manifest/Reference, Resolution and Rewriting; the
--   rest is EnvController: Types (the reconciler's fields, and the requests and results of
--   `internal/provisioner/provisioner.go`), Status (`fail`, `waitForFlake`, `markPending`,
--   `markRealizing`, `alreadyRealized`, `unmetDeps`, `waitForDeps`, `upsertRealization`) and
--   Reconcile (`Reconcile`, one function for each stage after an early return). Realizations,
--   Settling, Quiescence, Progress, Queue, Gates, Delivery and Relock have the theorems; Queue
--   has the work queue, which brings a request back. Slots is the channel that limits the
--   realises of a node: the workers' turns on it, as a step relation over all interleavings.
--   Linked puts the provisioner of the node behind the reconciler, where the code has an
--   interface.
-- - Handover puts the two reconcilers together: what the one stores, the other's watch maps to the
--   pods that wait, and its reconcile releases them. Rollout does so for a catalog's relock and the
--   environments that it reaches.
-- - `internal/controller/floxenv_restart.go`: once a lock changes, the workloads that consume the
--   environment are rolled. EnvController/Restart has `restartConsumers`, EnvController/Stamps the
--   theorems.
-- - `internal/controller/floxcatalog_controller.go`: a catalog is resolved to the tarball of its
--   source, and its environments are told to lock again. Catalog has `Reconcile`, `notReady`,
--   `propagateRelock`, `nodeReachableURL`, `envsRollup`, `readiness` and the maps from events to
--   requests, with the parts without a state in Catalog/Objects and Catalog/Rollup;
--   Catalog/Resolution, Relock, Readiness and Requests the theorems.
-- - `internal/provisioner/exec.go`: an environment is materialised on the node. Provisioner has the
--   commands and the paths, Provisioner/Environment `floxCommandEnv`, Build `buildEnv`, Roots
--   `writeGcroot`, Subtree `addEnvSubtree` and Realize `Realize`, `containerizeAndImport` and
--   `Prune`. Names (which paths differ), Sources, Staging, Selection, Token, Links, Swap,
--   Atomicity, Success and Completion have the theorems.
-- - `cmd/flox-controller/main.go`: Main has the flags and `main`, which registers the parts with
--   the manager in their order. Events has the filters on the
--   resources' events (`realisationChange`, `catalogChange`).
-- - `internal/carrier/carrier.go`: `EnsureBase` at startup. Carrier, and Carrier/Ownership.
-- - `api/v1alpha1`: the resources, in Api. `zz_generated.deepcopy.go`, their deep copies, is
--   Copies: Copies/Heap is Go's memory, Slices what the generated code does at a slice, a pointer
--   and a map, Objects the resources with references, DeepCopy the functions of each type,
--   Resources what the objects stand for. Layouts, Arrays, References, Structs and Deep say what
--   a deep copy is, and build the proof up as the code builds the copy; Separation has the
--   theorem. Upsert is `upsertRealization` in place, on the array behind the slice, with Sharing
--   and Base.
--
-- The code outside the repository. The API server behind a client is the record Client: an
-- abstract state, and one function for each call, which returns the object or an error and the
-- next state; a handler passes the state on, and returns an Outcome of the result, the error and
-- the state. The condition functions of `k8s.io/apimachinery` are the record Conditions, with
-- what they document as its IsLawful. The JSON decoder, the TOML encoder, SHA-256, the
-- provisioner and the wait for a slot are fields of EnvController/Types.Reconciler; URLs and the
-- lookup of a host are fields of Catalog.CatalogReconciler; the decoded carrier file is an
-- argument of `ensure_base`; the parsing of a size is a field of Webhook.PodFloxMutator. The node
-- is the record Host: an abstract state with one function for each call of Go's `os` and `os/exec`;
-- Host/Laws has what the operating system documents of files and links (IsPlain), and that commands
-- leave the GC-roots alone (KeepsLinks), and Host/Reliable a host on which no call fails but for a
-- missing directory. A host on which every call fails from some moment on may be plain too, so that
-- what holds however a realisation ends holds where it is interrupted between two calls. What
-- `main` does with the manager is an argument of it, and the framework's predicates are the record
-- Events.Predicates. Core has the Kubernetes objects, with the fields
-- that the program uses.
--
-- Prelude has what all parts share: equality and tests, Go's functions on strings (Prelude/Text),
-- maps as lists of entries in the order of an iteration (Prelude/Dict), errors as values
-- (Prelude/Errors) and the order of strings (Prelude/Order). Action has the statements that
-- change a state and may fail, with their postconditions, Action/Leaves those that leave a part
-- of the state as it is, and Action/Sure those that succeed. Filepath is Go's `path/filepath`,
-- with Filepath/Plain and Files on the paths that Clean keeps.
--
-- All loops of the program are over lists and are structural recursion here. Only the digits of a
-- number (`decimal` in Prelude/Text) run on fuel, the number itself, which is enough; and so does
-- the work queue (`work` in EnvController/Queue), whose theorem is for any fuel from one round
-- more on. Generations and durations in seconds are natural numbers. Logging is not modelled. The
-- reconcilers are over the values of objects, not over memory: the object before a change, which
-- the code keeps as `base := env.DeepCopy()`, is a value of its own, as Copies/Base says of the
-- memory; a patched object is returned by the call, and where the code uses it afterwards
-- (`markRealizing`) the model does.
--
-- Not modelled: the registration of the types with the framework, and that of a controller with
-- its manager (`SetupWithManager`), which is the framework's; file modes, the error streams of
-- commands, and the steps of another worker between two steps of a realisation.
--
-- Tests has an API server and a node in memory, and the theorems at concrete objects.
pub mod Prelude
pub mod Action
pub mod Api
pub mod Floxenv
pub mod Core
pub mod Client
pub mod PodGate
pub mod Conditions
pub mod Copies
pub mod Webhook
pub mod Filepath
pub mod Handover
pub mod Host
pub mod Manifest
pub mod EnvController
pub mod Catalog
pub mod Carrier
pub mod Provisioner
pub mod Events
pub mod Main
pub mod Rollout
pub mod Tests
