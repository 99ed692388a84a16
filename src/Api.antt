-- ===== src/Api.antt =====
-- api/v1alpha1: the custom resources, as the controllers read and write them. Of the Kubernetes
-- metadata there are the fields that the program uses.
use flox_controller.Prelude.{ℕ, String, Bool, Option, List}
use flox_controller.Prelude.Dict.{Dict}

-- metav1.ObjectMeta
pub record ObjectMeta : Type 0 where
  pub name : String
  pub namespace : String
  pub generation : ℕ
  pub annotations : Dict String String
  pub labels : Dict String String

-- metav1.Condition, without the transition time, which the program neither sets nor reads.
pub record Condition : Type 0 where
  pub type : String
  pub status : String
  pub reason : String
  pub message : String
  pub observed_generation : ℕ

pub record UpdatePolicy : Type 0 where
  pub mode : String

pub record InjectedSecretKeyRef : Type 0 where
  pub name : String
  pub key : String
  pub optional : Option Bool

pub record InjectedEnv : Type 0 where
  pub name : String
  pub value : String
  pub secret_key_ref : Option InjectedSecretKeyRef

-- The manifest is the raw JSON that the API server stores.
pub record FloxEnvSpec : Type 0 where
  pub consumption : String
  pub manifest : Option String
  pub update : Option UpdatePolicy
  pub folder : String
  pub depends_on : List String
  pub inject : List InjectedEnv

pub record NodeRealization : Type 0 where
  pub node : String
  pub ready : Bool
  pub store_path : String
  pub env_path : String
  pub gcroot_path : String
  pub observed_generation : ℕ

pub record FloxEnvStatus : Type 0 where
  pub lock : String
  pub relock_token : String
  pub resolved : Dict String String
  pub realized : List NodeRealization
  pub conditions : List Condition

pub record FloxEnv : Type 0 where
  pub meta : ObjectMeta
  pub open meta use *
  pub spec : FloxEnvSpec
  pub status : FloxEnvStatus

pub record SourceReference : Type 0 where
  pub kind : String
  pub name : String
  pub namespace : String

pub record FloxCatalogSpec : Type 0 where
  pub source_ref : SourceReference
  pub dir : String

pub record FloxEnvPhase : Type 0 where
  pub name : String
  pub phase : String

pub record FloxCatalogStatus : Type 0 where
  pub revision : String
  pub artifact_url : String
  pub flake_ref : String
  pub envs_summary : String
  pub envs : List FloxEnvPhase
  pub conditions : List Condition

pub record FloxCatalog : Type 0 where
  pub meta : ObjectMeta
  pub open meta use *
  pub spec : FloxCatalogSpec
  pub status : FloxCatalogStatus
