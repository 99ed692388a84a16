-- ===== src/Copies/Objects.antt =====
-- api/v1alpha1: the resources as Go holds them, with slices, pointers and maps that refer to cells. A
-- pointer and a map are an address, or nil.
use flox_controller.Prelude.{ℕ, String, Bool, Option, List, [], refl}
use flox_controller.Prelude.Dict.{Dict}
use flox_controller.Api.{
  Condition, UpdatePolicy, NodeRealization, SourceReference, FloxEnvPhase, FloxCatalogSpec,
}
use flox_controller.Copies.Heap.{Slice, Kind}
use flox_controller.Copies.Slices.{MapKind}

-- metav1.ObjectMeta
pub record MetaObject : Type 0 where
  pub name : String
  pub namespace : String
  pub generation : ℕ
  pub annotations : Option ℕ
  pub labels : Option ℕ

-- runtime.RawExtension
pub record RawObject : Type 0 where
  pub raw : Option Slice

pub record SecretObject : Type 0 where
  pub name : String
  pub key : String
  pub optional : Option ℕ

pub record InjectedObject : Type 0 where
  pub name : String
  pub value : String
  pub secret_key_ref : Option ℕ

pub record SpecObject : Type 0 where
  pub consumption : String
  pub manifest : Option ℕ
  pub update : Option ℕ
  pub folder : String
  pub depends_on : Option Slice
  pub inject : Option Slice

pub record StatusObject : Type 0 where
  pub lock : String
  pub relock_token : String
  pub resolved : Option ℕ
  pub realized : Option Slice
  pub conditions : Option Slice

pub record EnvObject : Type 0 where
  pub meta : MetaObject
  pub spec : SpecObject
  pub status : StatusObject

pub record CatalogStatusObject : Type 0 where
  pub revision : String
  pub artifact_url : String
  pub flake_ref : String
  pub envs_summary : String
  pub envs : Option Slice
  pub conditions : Option Slice

pub record CatalogObject : Type 0 where
  pub meta : MetaObject
  pub spec : FloxCatalogSpec
  pub status : CatalogStatusObject

-- The lists, without their metadata, which the program does not use.
pub record EnvListObject : Type 0 where
  pub items : Option Slice

pub record CatalogListObject : Type 0 where
  pub items : Option Slice

-- What a cell holds: a map of strings, or an array. Memory is typed, so that a cell keeps its kind.
pub data Cell : Type 0 where
  string_table : Dict String String → Cell
  string_array : List String → Cell
  byte_array : List ℕ → Cell
  flag_array : List Bool → Cell
  policy_array : List UpdatePolicy → Cell
  secret_array : List SecretObject → Cell
  injected_array : List InjectedObject → Cell
  raw_array : List RawObject → Cell
  realization_array : List NodeRealization → Cell
  condition_array : List Condition → Cell
  phase_array : List FloxEnvPhase → Cell
  source_array : List SourceReference → Cell
  spec_array : List SpecObject → Cell
  status_array : List StatusObject → Cell
  env_array : List EnvObject → Cell
  env_list_array : List EnvListObject → Cell
  catalog_spec_array : List FloxCatalogSpec → Cell
  catalog_status_array : List CatalogStatusObject → Cell
  catalog_array : List CatalogObject → Cell
  catalog_list_array : List CatalogListObject → Cell

abbrev pub tables : MapKind Cell
tables = record {
  table = string_table;
  entries = λ c. elim c [ string_table d ↦ d | _ ↦ [] ];
  entries-table = λ d. refl;
}

abbrev pub strings : Kind Cell String
strings = record {
  array = string_array;
  elements = λ c. elim c [ string_array xs ↦ xs | _ ↦ [] ];
  elements-array = λ xs. refl;
}

abbrev pub bytes : Kind Cell ℕ
bytes = record {
  array = byte_array;
  elements = λ c. elim c [ byte_array xs ↦ xs | _ ↦ [] ];
  elements-array = λ xs. refl;
}

abbrev pub flags : Kind Cell Bool
flags = record {
  array = flag_array;
  elements = λ c. elim c [ flag_array xs ↦ xs | _ ↦ [] ];
  elements-array = λ xs. refl;
}

abbrev pub policies : Kind Cell UpdatePolicy
policies = record {
  array = policy_array;
  elements = λ c. elim c [ policy_array xs ↦ xs | _ ↦ [] ];
  elements-array = λ xs. refl;
}

abbrev pub secrets : Kind Cell SecretObject
secrets = record {
  array = secret_array;
  elements = λ c. elim c [ secret_array xs ↦ xs | _ ↦ [] ];
  elements-array = λ xs. refl;
}

abbrev pub injected : Kind Cell InjectedObject
injected = record {
  array = injected_array;
  elements = λ c. elim c [ injected_array xs ↦ xs | _ ↦ [] ];
  elements-array = λ xs. refl;
}

abbrev pub raws : Kind Cell RawObject
raws = record {
  array = raw_array;
  elements = λ c. elim c [ raw_array xs ↦ xs | _ ↦ [] ];
  elements-array = λ xs. refl;
}

abbrev pub realizations : Kind Cell NodeRealization
realizations = record {
  array = realization_array;
  elements = λ c. elim c [ realization_array xs ↦ xs | _ ↦ [] ];
  elements-array = λ xs. refl;
}

abbrev pub conditions : Kind Cell Condition
conditions = record {
  array = condition_array;
  elements = λ c. elim c [ condition_array xs ↦ xs | _ ↦ [] ];
  elements-array = λ xs. refl;
}

abbrev pub phases : Kind Cell FloxEnvPhase
phases = record {
  array = phase_array;
  elements = λ c. elim c [ phase_array xs ↦ xs | _ ↦ [] ];
  elements-array = λ xs. refl;
}

abbrev pub sources : Kind Cell SourceReference
sources = record {
  array = source_array;
  elements = λ c. elim c [ source_array xs ↦ xs | _ ↦ [] ];
  elements-array = λ xs. refl;
}

abbrev pub specs : Kind Cell SpecObject
specs = record {
  array = spec_array;
  elements = λ c. elim c [ spec_array xs ↦ xs | _ ↦ [] ];
  elements-array = λ xs. refl;
}

abbrev pub statuses : Kind Cell StatusObject
statuses = record {
  array = status_array;
  elements = λ c. elim c [ status_array xs ↦ xs | _ ↦ [] ];
  elements-array = λ xs. refl;
}

abbrev pub envs : Kind Cell EnvObject
envs = record {
  array = env_array;
  elements = λ c. elim c [ env_array xs ↦ xs | _ ↦ [] ];
  elements-array = λ xs. refl;
}

abbrev pub env_lists : Kind Cell EnvListObject
env_lists = record {
  array = env_list_array;
  elements = λ c. elim c [ env_list_array xs ↦ xs | _ ↦ [] ];
  elements-array = λ xs. refl;
}

abbrev pub catalog_specs : Kind Cell FloxCatalogSpec
catalog_specs = record {
  array = catalog_spec_array;
  elements = λ c. elim c [ catalog_spec_array xs ↦ xs | _ ↦ [] ];
  elements-array = λ xs. refl;
}

abbrev pub catalog_statuses : Kind Cell CatalogStatusObject
catalog_statuses = record {
  array = catalog_status_array;
  elements = λ c. elim c [ catalog_status_array xs ↦ xs | _ ↦ [] ];
  elements-array = λ xs. refl;
}

abbrev pub catalogs : Kind Cell CatalogObject
catalogs = record {
  array = catalog_array;
  elements = λ c. elim c [ catalog_array xs ↦ xs | _ ↦ [] ];
  elements-array = λ xs. refl;
}

abbrev pub catalog_lists : Kind Cell CatalogListObject
catalog_lists = record {
  array = catalog_list_array;
  elements = λ c. elim c [ catalog_list_array xs ↦ xs | _ ↦ [] ];
  elements-array = λ xs. refl;
}
