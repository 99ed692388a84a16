-- ===== src/Copies/DeepCopy.antt =====
-- api/v1alpha1/zz_generated.deepcopy.go: `DeepCopyInto`, `DeepCopy` and `DeepCopyObject` of each
-- type. `DeepCopyInto` gives what it writes into `out`, and the memory then.
use flox_controller.Prelude.{ℕ, String, Option, none, some, List}
use flox_controller.Api.{
  Condition, UpdatePolicy, NodeRealization, SourceReference, FloxEnvPhase, FloxCatalogSpec,
}
use flox_controller.Copies.Heap.{Heap}
use flox_controller.Copies.Slices.{Copy, plain, copy_slice, copy_pointer, copy_map}
use flox_controller.Copies.Objects.{
  MetaObject, RawObject, SecretObject, InjectedObject, SpecObject, StatusObject, EnvObject,
  CatalogStatusObject, CatalogObject, EnvListObject, CatalogListObject, Cell, tables, strings,
  flags, policies, secrets, injected, raws, realizations, conditions, phases, sources, specs,
  statuses, envs, env_lists, catalog_specs, catalog_statuses, catalogs, catalog_lists,
}

-- `DeepCopyInto` of metav1.ObjectMeta, metav1.Condition and runtime.RawExtension; and the text of
-- bytes.
pub record Library : Type 0 where
  pub text : List ℕ → String
  pub copy_meta : Copy Cell MetaObject
  pub copy_condition : Copy Cell Condition
  pub copy_raw : Copy Cell RawObject

-- A pointer or nil.
abbrev pub Pointer : Type 0
Pointer = Option ℕ

unfoldable pub copy_policy : Copy Cell UpdatePolicy
copy_policy src h = (src, h)

unfoldable pub copy_realization : Copy Cell NodeRealization
copy_realization src h = (src, h)

unfoldable pub copy_source : Copy Cell SourceReference
copy_source src h = (src, h)

unfoldable pub copy_phase : Copy Cell FloxEnvPhase
copy_phase src h = (src, h)

unfoldable pub copy_catalog_spec : Copy Cell FloxCatalogSpec
copy_catalog_spec src h = (record src { source_ref = src.source_ref }, h)

unfoldable pub copy_secret : Copy Cell SecretObject
copy_secret src h =
    let (optional, h') = copy_pointer flags plain src.optional h in
    (record src { optional = optional }, h')

unfoldable pub copy_injected : Copy Cell InjectedObject
copy_injected src h =
    let (ref, h') = copy_pointer secrets copy_secret src.secret_key_ref h in
    (record src { secret_key_ref = ref }, h')

module _ (lib : Library) where
  unfoldable pub copy_spec : Copy Cell SpecObject
  copy_spec src h =
      let (manifest, h1) = copy_pointer raws lib.copy_raw src.manifest h in
      let (update, h2) = copy_pointer policies plain src.update h1 in
      let (depends_on, h3) = copy_slice strings plain src.depends_on h2 in
      let (inject, h4) = copy_slice injected copy_injected src.inject h3 in
      (
        record src {
          manifest = manifest;
          update = update;
          depends_on = depends_on;
          inject = inject;
        },
        h4,
      )

  unfoldable pub copy_status : Copy Cell StatusObject
  copy_status src h =
      let (resolved, h1) = copy_map tables src.resolved h in
      let (realized, h2) = copy_slice realizations plain src.realized h1 in
      let (conds, h3) = copy_slice conditions lib.copy_condition src.conditions h2 in
      (record src { resolved = resolved; realized = realized; conditions = conds }, h3)

  unfoldable pub copy_env : Copy Cell EnvObject
  copy_env src h =
      let (meta, h1) = lib.copy_meta src.meta h in
      let (spec, h2) = copy_spec src.spec h1 in
      let (status, h3) = copy_status src.status h2 in
      (record src { meta = meta; spec = spec; status = status }, h3)

  unfoldable pub copy_env_list : Copy Cell EnvListObject
  copy_env_list src h =
      let (items, h') = copy_slice envs copy_env src.items h in (record src { items = items }, h')

  unfoldable pub copy_catalog_status : Copy Cell CatalogStatusObject
  copy_catalog_status src h =
      let (names, h1) = copy_slice phases plain src.envs h in
      let (conds, h2) = copy_slice conditions lib.copy_condition src.conditions h1 in
      (record src { envs = names; conditions = conds }, h2)

  unfoldable pub copy_catalog : Copy Cell CatalogObject
  copy_catalog src h =
      let (meta, h1) = lib.copy_meta src.meta h in
      let (status, h2) = copy_catalog_status src.status h1 in
      (record src { meta = meta; spec = src.spec; status = status }, h2)

  unfoldable pub copy_catalog_list : Copy Cell CatalogListObject
  copy_catalog_list src h =
      let (items, h') = copy_slice catalogs copy_catalog src.items h in
      (record src { items = items }, h')

  unfoldable pub deep_copy_spec : Copy Cell Pointer
  deep_copy_spec = copy_pointer specs copy_spec

  unfoldable pub deep_copy_status : Copy Cell Pointer
  deep_copy_status = copy_pointer statuses copy_status

  unfoldable pub deep_copy_env : Copy Cell Pointer
  deep_copy_env = copy_pointer envs copy_env

  unfoldable pub deep_copy_env_list : Copy Cell Pointer
  deep_copy_env_list = copy_pointer env_lists copy_env_list

  unfoldable pub deep_copy_catalog_status : Copy Cell Pointer
  deep_copy_catalog_status = copy_pointer catalog_statuses copy_catalog_status

  unfoldable pub deep_copy_catalog : Copy Cell Pointer
  deep_copy_catalog = copy_pointer catalogs copy_catalog

  unfoldable pub deep_copy_catalog_list : Copy Cell Pointer
  deep_copy_catalog_list = copy_pointer catalog_lists copy_catalog_list

unfoldable pub deep_copy_policy : Copy Cell Pointer
deep_copy_policy = copy_pointer policies copy_policy

unfoldable pub deep_copy_realization : Copy Cell Pointer
deep_copy_realization = copy_pointer realizations copy_realization

unfoldable pub deep_copy_source : Copy Cell Pointer
deep_copy_source = copy_pointer sources copy_source

unfoldable pub deep_copy_phase : Copy Cell Pointer
deep_copy_phase = copy_pointer phases copy_phase

unfoldable pub deep_copy_catalog_spec : Copy Cell Pointer
deep_copy_catalog_spec = copy_pointer catalog_specs copy_catalog_spec

unfoldable pub deep_copy_secret : Copy Cell Pointer
deep_copy_secret = copy_pointer secrets copy_secret

unfoldable pub deep_copy_injected : Copy Cell Pointer
deep_copy_injected = copy_pointer injected copy_injected

-- runtime.Object: an interface that holds a pointer of one of these types, which may be nil itself.
pub data RuntimeObject : Type 0 where
  env_object : Pointer → RuntimeObject
  env_list_object : Pointer → RuntimeObject
  catalog_object : Pointer → RuntimeObject
  catalog_list_object : Pointer → RuntimeObject

-- `if c := in.DeepCopy(); c != nil { return c }; return nil`: a nil pointer gives a nil interface.
abbrev as_object : (Pointer → RuntimeObject) → Pointer → Option RuntimeObject
as_object wrap none = none
as_object wrap (some p) = some (wrap (some p))

module _ {H : Type 0} where
  -- The same of a copy with the memory then.
  abbrev object_of : (Pointer → RuntimeObject) → Pointer × H → Option RuntimeObject × H
  object_of wrap (c, h) = (as_object wrap c, h)

module _ (lib : Library) where
  unfoldable pub deep_copy_env_object : Pointer → Heap Cell → Option RuntimeObject × Heap Cell
  deep_copy_env_object src h = object_of env_object (deep_copy_env lib src h)

  unfoldable pub deep_copy_env_list_object : Pointer → Heap Cell → Option RuntimeObject × Heap Cell
  deep_copy_env_list_object src h = object_of env_list_object (deep_copy_env_list lib src h)

  unfoldable pub deep_copy_catalog_object : Pointer → Heap Cell → Option RuntimeObject × Heap Cell
  deep_copy_catalog_object src h = object_of catalog_object (deep_copy_catalog lib src h)

  unfoldable pub deep_copy_catalog_list_object :
      Pointer → Heap Cell → Option RuntimeObject × Heap Cell
  deep_copy_catalog_list_object src h =
      object_of catalog_list_object (deep_copy_catalog_list lib src h)
