-- ===== src/Tests/References.antt =====
-- References in annotations and manifests, and the theorems on them.
use flox_controller.Prelude.{
  String, true, false, [], ◌∷◌, ◌==◌, string_eq, nat_eq, contains, ok, ◌≡◌, ◌≢◌, refl, ap, inr,
  arith,
}
use flox_controller.Prelude.Dict.{Dict}
use flox_controller.Api.{FloxCatalog}
use flox_controller.Floxenv.{EnvRef, ref_eq, refs_from_annotations}
use flox_controller.Floxenv.Sorting.{IsSorted}
use flox_controller.Floxenv.Refs.{some_names_ref, refs_from_annotations_lem, entry_eq}
use flox_controller.Manifest.{
  Fields, field, end, table, text, FloxCatalogRef, parse_flox_catalog_ref, resolved,
  resolve_installs,
}
use flox_controller.Manifest.Reference.{print_ref, parse_flox_catalog_ref-print_ref}
use flox_controller.Manifest.Resolution.{
  CatalogsAreTarballs, HasNoReferences, resolve_installs-HasNoReferences,
}
use flox_controller.Manifest.Rewriting.{AllResolved, resolve_installs-AllResolved}
use flox_controller.Tests.Memory.{World, memory}

abbrev annotations : Dict String String
annotations =
    ("flox.seedmatic.io/environment.a", "networking/web")
    ∷ ("flox.seedmatic.io/environment.b", "tools")
    ∷ ("unrelated", "x")
    ∷ []

abbrev walked_back : Dict String String
walked_back =
    ("unrelated", "x")
    ∷ ("flox.seedmatic.io/environment.b", "tools")
    ∷ ("flox.seedmatic.io/environment.a", "networking/web")
    ∷ []

refs_from_annotations_lem_example :
    IsSorted (refs_from_annotations annotations)
    × ((r : EnvRef) → contains (refs_from_annotations annotations) r ≡ some_names_ref r annotations)
refs_from_annotations_lem_example = refs_from_annotations_lem annotations

same_entries :
    (e : String × String)
    → contains {A = String × String} annotations e ≡ contains {A = String × String} walked_back e
same_entries e = ground arith

abbrev catalog_ref : FloxCatalogRef
catalog_ref = record { namespace = "flux"; name = "tools"; output = "hello" }

named_tools : catalog_ref.name ≢ ""
unfolding string_eq
named_tools e = let apart : true ≡ false = ap (λ (x : String). x == "tools") e in cc

in_flux : catalog_ref.namespace ≢ ""
unfolding string_eq
in_flux e = let apart : true ≡ false = ap (λ (x : String). x == "flux") e in cc

parse_flox_catalog_ref-print_ref_example :
    parse_flox_catalog_ref (print_ref catalog_ref) ≡ ok catalog_ref
unfolding nat_eq flox_controller.Prelude.split_first
parse_flox_catalog_ref-print_ref_example =
    parse_flox_catalog_ref-print_ref catalog_ref named_tools refl refl refl (inr in_flux)

abbrev pub tools_catalog : FloxCatalog
tools_catalog = record {
  meta = record {
    name = "tools";
    namespace = "flux";
    generation = 1;
    annotations = [];
    labels = [];
  };
  spec = record {
    source_ref = record { kind = "GitRepository"; name = "src"; namespace = "" };
    dir = "";
  };
  status = record {
    revision = "main@sha1:1";
    artifact_url = "";
    flake_ref = "tarball+http://source/x.tar.gz";
    envs_summary = "";
    envs = [];
    conditions = [];
  };
}

abbrev pub catalog_world : World
catalog_world = record {
  envs = [];
  catalogs = tools_catalog ∷ [];
  pods = [];
  workloads = [];
  claims = [];
}

abbrev install_of : String → Fields
install_of flake =
    field "hello" (table (field "flake" (text flake) end))
      (field "jq" (table (field "pkg-path" (text "jq") end)) end)

abbrev referring : Fields
referring = install_of "floxcatalog:flux/tools#hello"

abbrev pinned : Fields
pinned = install_of "tarball+http://source/x.tar.gz#hello"

pinned_by_catalog :
    resolve_installs memory catalog_world "networking" referring ≡ ok (resolved pinned)
unfolding resolve_installs string_eq nat_eq flox_controller.Manifest.catalog_flake
    flox_controller.Manifest.lookup_field flox_controller.Prelude.has_prefix
    flox_controller.Manifest.resolve_flake parse_flox_catalog_ref
    flox_controller.Manifest.split_namespace flox_controller.Prelude.split_first
    flox_controller.Manifest.split_output flox_controller.Prelude.trim_prefix
    flox_controller.Manifest.resolve_ref flox_controller.Manifest.output_of
    flox_controller.Manifest.add_install flox_controller.Manifest.set_flake
    flox_controller.Manifest.set_field
pinned_by_catalog = refl

pub catalog_world-CatalogsAreTarballs : CatalogsAreTarballs memory catalog_world
catalog_world-CatalogsAreTarballs ns name f found given =
    ("http://source/x.tar.gz", ground (arith, found))

resolve_installs-HasNoReferences_example : HasNoReferences pinned
resolve_installs-HasNoReferences_example =
    resolve_installs-HasNoReferences memory catalog_world "networking"
      catalog_world-CatalogsAreTarballs referring pinned pinned_by_catalog

resolve_installs-AllResolved_example :
    AllResolved memory catalog_world "networking" referring pinned
resolve_installs-AllResolved_example =
    resolve_installs-AllResolved memory catalog_world "networking" referring pinned
      pinned_by_catalog
