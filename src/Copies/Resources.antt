-- ===== src/Copies/Resources.antt =====
-- What the resources stand for, by the types of Api, and which cells they have.
use flox_controller.Prelude.{String, Bool, Option, List}
use flox_controller.Prelude.Dict.{Dict}
use flox_controller.Api.{
  ObjectMeta, Condition, UpdatePolicy, InjectedSecretKeyRef, InjectedEnv, FloxEnvSpec,
  FloxEnvStatus, FloxEnv, FloxCatalogStatus, FloxCatalog, FloxEnvPhase, NodeRealization,
}
use flox_controller.Copies.Layouts.{Layout, flat, IsDeepCopy}
use flox_controller.Copies.References.{slice_layout, pointer_layout, map_layout}
use flox_controller.Copies.Structs.{both, struct}
use flox_controller.Copies.Objects.{
  MetaObject, RawObject, SecretObject, InjectedObject, SpecObject, StatusObject, EnvObject,
  CatalogStatusObject, CatalogObject, EnvListObject, CatalogListObject, Cell, tables, strings,
  bytes, flags, policies, secrets, injected, raws, realizations, conditions, phases, envs, catalogs,
}
use flox_controller.Copies.DeepCopy.{Library}

-- The resource of an object, from what its references stand for.
abbrev pub meta_of : MetaObject → Dict String String × Dict String String → ObjectMeta
meta_of x v = record {
  name = x.name;
  namespace = x.namespace;
  generation = x.generation;
  annotations = v.0;
  labels = v.1;
}

abbrev pub secret_of : SecretObject → Option Bool → InjectedSecretKeyRef
secret_of x v = record { name = x.name; key = x.key; optional = v }

abbrev pub injected_of : InjectedObject → Option InjectedSecretKeyRef → InjectedEnv
injected_of x v = record { name = x.name; value = x.value; secret_key_ref = v }

abbrev pub spec_of :
    SpecObject
    → Option String × (Option UpdatePolicy × (List String × List InjectedEnv))
    → FloxEnvSpec
spec_of x v = record {
  consumption = x.consumption;
  manifest = v.0;
  update = v.1.0;
  folder = x.folder;
  depends_on = v.1.1.0;
  inject = v.1.1.1;
}

abbrev pub status_of :
    StatusObject → Dict String String × (List NodeRealization × List Condition) → FloxEnvStatus
status_of x v = record {
  lock = x.lock;
  relock_token = x.relock_token;
  resolved = v.0;
  realized = v.1.0;
  conditions = v.1.1;
}

abbrev pub env_of : EnvObject → ObjectMeta × (FloxEnvSpec × FloxEnvStatus) → FloxEnv
env_of x v = record { meta = v.0; spec = v.1.0; status = v.1.1 }

abbrev pub catalog_status_of :
    CatalogStatusObject → List FloxEnvPhase × List Condition → FloxCatalogStatus
catalog_status_of x v = record {
  revision = x.revision;
  artifact_url = x.artifact_url;
  flake_ref = x.flake_ref;
  envs_summary = x.envs_summary;
  envs = v.0;
  conditions = v.1;
}

abbrev pub catalog_of : CatalogObject → ObjectMeta × FloxCatalogStatus → FloxCatalog
catalog_of x v = record { meta = v.0; spec = x.spec; status = v.1 }

abbrev pub meta_layout : Layout Cell MetaObject ObjectMeta
meta_layout =
    struct (both (map_layout tables) (map_layout tables)) (λ x. (x.annotations, x.labels)) meta_of

abbrev pub secret_layout : Layout Cell SecretObject InjectedSecretKeyRef
secret_layout = struct (pointer_layout flags flat) (λ x. x.optional) secret_of

abbrev pub injected_layout : Layout Cell InjectedObject InjectedEnv
injected_layout = struct (pointer_layout secrets secret_layout) (λ x. x.secret_key_ref) injected_of

abbrev pub status_layout : Layout Cell StatusObject FloxEnvStatus
status_layout =
    struct
      (both (map_layout tables)
        (both (slice_layout realizations flat) (slice_layout conditions flat)))
      (λ x. (x.resolved, (x.realized, x.conditions))) status_of

abbrev pub catalog_status_layout : Layout Cell CatalogStatusObject FloxCatalogStatus
catalog_status_layout =
    struct (both (slice_layout phases flat) (slice_layout conditions flat))
      (λ x. (x.envs, x.conditions)) catalog_status_of

abbrev pub catalog_layout : Layout Cell CatalogObject FloxCatalog
catalog_layout =
    struct (both meta_layout catalog_status_layout) (λ x. (x.meta, x.status)) catalog_of

abbrev pub catalog_list_layout : Layout Cell CatalogListObject (List FloxCatalog)
catalog_list_layout = struct (slice_layout catalogs catalog_layout) (λ x. x.items) (λ x v. v)

module _ (lib : Library) where
  -- The text that an extension has, empty where it has none.
  abbrev pub raw_layout : Layout Cell RawObject String
  raw_layout = struct (slice_layout bytes flat) (λ x. x.raw) (λ x v. lib.text v)

  abbrev pub spec_layout : Layout Cell SpecObject FloxEnvSpec
  spec_layout =
      struct
        (both (pointer_layout raws raw_layout) (
          both (pointer_layout policies flat)
            (both (slice_layout strings flat) (slice_layout injected injected_layout))))
        (λ x. (x.manifest, (x.update, (x.depends_on, x.inject)))) spec_of

  abbrev pub env_layout : Layout Cell EnvObject FloxEnv
  env_layout =
      struct (both meta_layout (both spec_layout status_layout)) (λ x. (x.meta, (x.spec, x.status)))
        env_of

  abbrev pub env_list_layout : Layout Cell EnvListObject (List FloxEnv)
  env_list_layout = struct (slice_layout envs env_layout) (λ x. x.items) (λ x v. v)

-- The metadata and the extensions are copied deeply, as their documentation says of `DeepCopyInto`.
pub record IsLibrary (lib : Library) : Type 0 where
  pub copy_meta-IsDeepCopy : IsDeepCopy meta_layout lib.copy_meta
  pub copy_condition-IsDeepCopy : IsDeepCopy flat lib.copy_condition
  pub copy_raw-IsDeepCopy : IsDeepCopy (raw_layout lib) lib.copy_raw
