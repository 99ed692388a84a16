-- ===== src/Core.antt =====
-- k8s.io/api/core/v1 and apps/v1: the fields of pods, containers and workloads that the program
-- reads or writes.
use flox_controller.Prelude.{String, Bool, Option, List}
use flox_controller.Prelude.Dict.{Dict}
use flox_controller.Api.{ObjectMeta}

pub record NodeSelectorRequirement : Type 0 where
  pub key : String
  pub operator : String
  pub values : List String

pub record NodeSelectorTerm : Type 0 where
  pub match_expressions : List NodeSelectorRequirement
  pub match_fields : List NodeSelectorRequirement

-- `RequiredDuringSchedulingIgnoredDuringExecution`: its node selector terms.
pub record NodeAffinity : Type 0 where
  pub required : Option (List NodeSelectorTerm)

pub record Affinity : Type 0 where
  pub node_affinity : Option NodeAffinity

pub record SecretKeySelector : Type 0 where
  pub name : String
  pub key : String
  pub optional : Option Bool

pub record EnvVar : Type 0 where
  pub name : String
  pub value : String
  pub secret_key_ref : Option SecretKeySelector

pub record VolumeMount : Type 0 where
  pub name : String
  pub mount_path : String

-- The claim is that of a `PersistentVolumeClaim` source; a volume of another kind has none.
pub record Volume : Type 0 where
  pub name : String
  pub claim_name : Option String

pub record Container : Type 0 where
  pub name : String
  pub env : List EnvVar
  pub volume_mounts : List VolumeMount

-- The scheduling gates are their names.
pub record PodSpec : Type 0 where
  pub node_name : String
  pub scheduling_gates : List String
  pub affinity : Option Affinity
  pub volumes : List Volume
  pub init_containers : List Container
  pub containers : List Container

pub record Pod : Type 0 where
  pub meta : ObjectMeta
  pub open meta use *
  pub spec : PodSpec

pub record PersistentVolumeClaim : Type 0 where
  pub name : String
  pub namespace : String
  pub access_modes : List String
  pub storage_class : Option String
  pub storage : String

pub data WorkloadKind : Type 0 where
  deployment daemon_set stateful_set : WorkloadKind

-- A Deployment, DaemonSet or StatefulSet, and the annotations of its pod template.
pub record Workload : Type 0 where
  pub kind : WorkloadKind
  pub namespace : String
  pub name : String
  pub template_annotations : Dict String String
