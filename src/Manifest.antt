-- ===== src/Manifest.antt =====
-- internal/controller/floxenv_controller.go: the manifest of an environment, from the stored JSON to
-- manifest.toml, with its floxcatalog: references resolved on the way. The decoder of JSON and the
-- encoder of TOML are parameters.
pub mod Reference
pub mod Resolution
pub mod Rewriting
use flox_controller.Prelude.{
  String, ◌<>◌, Bool, not, Option, none, some, ◌==◌, string_eq, nat_eq, if◌then◌else◌, has_prefix,
  trim_prefix, split_first, Result, ok, err, Error, other, wrap, is_not_found,
}
use flox_controller.Api.{FloxCatalog}
use flox_controller.Client.{Client}

-- `any`, as `json.Unmarshal` fills it, and `map[string]any` in the order of an iteration over it.
-- A number is its text.
mutual
  pub data Value : Type 0 where
    null : Value
    bool : Bool → Value
    number : String → Value
    text : String → Value
    array : Items → Value
    table : Fields → Value

  pub data Items : Type 0 where
    nil : Items
    item : Value → Items → Items

  pub data Fields : Type 0 where
    end : Fields
    field : String → Value → Fields → Fields

-- `v, ok := m[k]`
unfoldable pub lookup_field : String → Fields → Option Value
lookup_field k end = none
lookup_field k (field j v m) = if k == j then some v else lookup_field k m

-- `m[k] = v`
unfoldable pub set_field : String → Value → Fields → Fields
set_field k v end = field k v end
set_field k v (field j w m) = if k == j then field k v m else field j w (set_field k v m)

-- The raw manifest, absent or empty where the resource has none.
unfoldable pub parse_manifest : (String → Result Fields) → Option String → Result Fields
parse_manifest unmarshal none = ok end
parse_manifest unmarshal (some raw) =
    if raw == ""
    then ok end
    else elim (unmarshal raw) [ ok m ↦ ok m | err e ↦ err (wrap "unmarshal spec.manifest" e) ]

abbrev pub flox_schema_version : String
flox_schema_version = "1.14.0"

-- The manifest with the schema version that flox wants.
unfoldable pub with_schema_version : Fields → Fields
unfolding lookup_field set_field
with_schema_version m = elim (lookup_field "schema-version" m) [
  | none ↦ set_field "schema-version" (text flox_schema_version) m
  | some v ↦ m
]

unfoldable pub manifest_to_toml : (Fields → Result String) → Fields → Result String
unfolding with_schema_version
manifest_to_toml marshal end = ok ""
manifest_to_toml marshal (field k v m) = elim (marshal (with_schema_version (field k v m))) [
  | ok out ↦ ok out
  | err e ↦ err (wrap "marshal manifest.toml" e)
]

abbrev pub flox_catalog_scheme : String
flox_catalog_scheme = "floxcatalog:"

pub record FloxCatalogRef : Type 0 where
  pub namespace : String
  pub name : String
  pub output : String

abbrev invalid_ref : String → Error
invalid_ref s = other ("invalid ref \"" <> (s <> "\" (want floxcatalog:[<ns>/]<name>#<output>)"))

-- `body` before the output, and the output.
unfoldable pub split_output : String → String × String
split_output body = elim (split_first b'#' body) [
  | some (before, output) ↦ (before, output)
  | none ↦ (body, "")
]

unfoldable pub split_namespace : String → String × String
split_namespace body = elim (split_first b'/' body) [
  | some (ns, name) ↦ (ns, name)
  | none ↦ ("", body)
]

-- The message quotes the text without escapes.
unfoldable pub parse_flox_catalog_ref : String → Result FloxCatalogRef
parse_flox_catalog_ref s =
    let (body, output) = split_output (trim_prefix s flox_catalog_scheme) in
    let (ns, name) = split_namespace body in
    if name == ""
    then err (invalid_ref s)
    else ok (record { namespace = ns; name = name; output = output })

-- What the loop over the installs ends with: the resolved table, or a wait for a catalog.
pub data Resolved : Type 0 where
  waiting : Resolved
  resolved : Fields → Resolved

-- The resolved value of one `flake` text.
pub data FlakeResolution : Type 0 where
  no_artifact : FlakeResolution
  concrete : String → FlakeResolution

-- The `flake` text of an install that has one with the scheme.
unfoldable pub catalog_flake : Value → Option String
catalog_flake (table entry) = elim (lookup_field "flake" entry) [
  | some (text raw) ↦ if has_prefix raw flox_catalog_scheme then some raw else none
  | _ ↦ none
]
catalog_flake _ = none

unfoldable pub set_flake : String → Value → Value
set_flake flake (table entry) = table (set_field "flake" (text flake) entry)
set_flake flake v = v

unfoldable pub add_install : String → Value → Result Resolved → Result Resolved
add_install id v (ok (resolved m)) = ok (resolved (field id v m))
add_install id v (ok waiting) = ok waiting
add_install id v (err e) = err e

-- The error of a reference whose catalog cannot be read.
unfoldable pub catalog_error : String → String → String → Error → Error
catalog_error id ns name e =
    if is_not_found e
    then other ("install." <> (id <> (": FloxCatalog " <> (ns <> ("/" <> (name <> " not found"))))))
    else e

-- The reference's output of the catalog.
unfoldable pub output_of : FloxCatalogRef → FloxCatalog → FlakeResolution
output_of ref flake =
    if flake.status.flake_ref == ""
    then no_artifact
    else concrete (
        if not (ref.output == "")
        then flake.status.flake_ref <> ("#" <> ref.output)
        else flake.status.flake_ref)

module _ (c : Client) where
  unfoldable pub resolve_ref : c.State → String → String → FloxCatalogRef → Result FlakeResolution
  resolve_ref s env_ns id ref =
      let ns : String = if ref.namespace == "" then env_ns else ref.namespace in
      elim (c.get_catalog s ns ref.name) [
        | err e ↦ err (catalog_error id ns ref.name e)
        | ok flake ↦ ok (output_of ref flake)
      ]

  -- The resolution of a text with the scheme.
  unfoldable pub resolve_flake : c.State → String → String → String → Result FlakeResolution
  resolve_flake s env_ns id raw = elim (parse_flox_catalog_ref raw) [
    | err e ↦ err (wrap ("install." <> (id <> ".flake")) e)
    | ok ref ↦ resolve_ref s env_ns id ref
  ]

  -- The loop over the installs. It stops at the first error or wait.
  unfoldable pub resolve_installs : c.State → String → Fields → Result Resolved
  resolve_installs s env_ns end = ok (resolved end)
  resolve_installs s env_ns (field id v m) =
      let rest = resolve_installs s env_ns m in
      elim (catalog_flake v) [
        | none ↦ add_install id v rest
        | some raw ↦ elim (resolve_flake s env_ns id raw) [
          | err e ↦ err e
          | ok no_artifact ↦ ok waiting
          | ok (concrete flake) ↦ add_install id (set_flake flake v) rest
        ]
      ]

  unfoldable pub resolve_flake_installs : c.State → String → Fields → Result Resolved
  resolve_flake_installs s env_ns m = elim (lookup_field "install" m) [
    | some (table install) ↦ elim (resolve_installs s env_ns install) [
      | err e ↦ err e
      | ok waiting ↦ ok waiting
      | ok (resolved install') ↦ ok (resolved (set_field "install" (table install') m))
    ]
    | _ ↦ ok (resolved m)
  ]
