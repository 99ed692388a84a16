-- ===== src/EnvController/Types.antt =====
-- The reconciler's fields, and the code outside the repository that it calls.
use flox_controller.Prelude.{ℕ, String, Option, List, Result, Error}
use flox_controller.Client.{Client}
use flox_controller.Conditions.{Conditions}
use flox_controller.Manifest.{Fields}

-- provisioner.EnvRef is a folder and a name, as that of floxenv.
pub record EnvRef : Type 0 where
  pub folder : String
  pub name : String

pub record RealizeRequest : Type 0 where
  pub ref : EnvRef
  pub manifest_toml : String
  pub lock : String
  pub consumption : String

pub record RealizeResult : Type 0 where
  pub store_path : String
  pub env_path : String
  pub gcroot_path : String
  pub lock : String

-- `realize` is the provisioner, under a timeout in seconds. `wait_slot` is the select between a
-- free slot and the end of the context, which gives its error. A duration or a number of slots
-- that is not positive is 0. `digest_bytes` is SHA-256.
pub record Reconciler : Type 1 where
  pub client : Client
  pub conditions : Conditions
  pub node_name : String
  pub realize_timeout : ℕ
  pub realize_slots : ℕ
  pub realize : client.State → ℕ → RealizeRequest → Result RealizeResult × client.State
  pub wait_slot : client.State → Option Error × client.State
  pub unmarshal : String → Result Fields
  pub marshal : Fields → Result String
  pub sha256 : String → List ℕ
