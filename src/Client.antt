-- ===== src/Client.antt =====
-- sigs.k8s.io/controller-runtime: the API server behind a client, and what a handler returns. The
-- client is a parameter. A write returns the object as the server holds it afterwards, with which
-- the client overwrites the caller's, or an error.
use flox_controller.Prelude.{ℕ, String, Bool, false, Option, List, Result, Error}
use flox_controller.Api.{FloxEnv, FloxCatalog}
use flox_controller.Core.{Pod, Workload, WorkloadKind, PersistentVolumeClaim}

-- What the catalog reads of a Flux source: `status.artifact.url` and `status.artifact.revision`,
-- empty where the object has none.
pub record Artifact : Type 0 where
  pub url : String
  pub revision : String

-- `get` takes a namespace and a name. A patch takes the object before the change and after it.
pub record Client : Type 1 where
  pub State : Type 0
  pub get_env : State → String → String → Result FloxEnv
  pub list_envs : State → Result (List FloxEnv)
  pub list_envs_in : State → String → Result (List FloxEnv)
  pub create_env : State → FloxEnv → Result FloxEnv × State
  pub update_env : State → FloxEnv → Result FloxEnv × State
  pub patch_env : State → FloxEnv → FloxEnv → Result FloxEnv × State
  pub patch_env_status : State → FloxEnv → FloxEnv → Result FloxEnv × State
  pub get_catalog : State → String → String → Result FloxCatalog
  pub list_catalogs : State → Result (List FloxCatalog)
  pub list_catalogs_in : State → String → Result (List FloxCatalog)
  pub patch_catalog_status : State → FloxCatalog → FloxCatalog → Result FloxCatalog × State
  pub get_git_repository : State → String → String → Result Artifact
  pub get_pod : State → String → String → Result Pod
  pub list_pods : State → Result (List Pod)
  pub update_pod : State → Pod → Result Pod × State
  pub list_workloads : State → WorkloadKind → Result (List Workload)
  pub patch_workload : State → Workload → Workload → Result Workload × State
  pub create_claim : State → PersistentVolumeClaim → Result PersistentVolumeClaim × State

-- types.NamespacedName
pub record NamespacedName : Type 0 where
  pub namespace : String
  pub name : String

-- ctrl.Result, the delay in seconds.
pub record CtrlResult : Type 0 where
  pub requeue : Bool
  pub requeue_after : ℕ

abbrev pub no_requeue : CtrlResult
no_requeue = record { requeue = false; requeue_after = 0 }

-- What `Reconcile` returns, and the state that it leaves.
pub record Outcome (S : Type 0) : Type 0 where
  pub result : CtrlResult
  pub error : Option Error
  pub state : S

-- `return ctrl.Result{}, err`
abbrev pub finish : {S : Type 0} → Option Error → S → Outcome S
finish e s = record { result = no_requeue; error = e; state = s }
