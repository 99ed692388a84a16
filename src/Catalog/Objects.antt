-- ===== src/Catalog/Objects.antt =====
-- The changes of one catalog or environment, and the requests that catalogs stand for.
use flox_controller.Prelude.{String, ◌&&◌, List, [], ◌∷◌, ◌==◌, string_eq, nat_eq, if◌then◌else◌}
use flox_controller.Prelude.Dict.{insert}
use flox_controller.Api.{FloxEnv, FloxCatalog}
use flox_controller.Client.{NamespacedName}
use flox_controller.Conditions.{Conditions}
use flox_controller.EnvController.Status.{relock_annotation}

-- The catalog with its Ready condition set, for its current generation.
abbrev pub set_catalog_ready : Conditions → FloxCatalog → String → String → String → FloxCatalog
set_catalog_ready m flake status reason text = record flake {
  status = record (flake.status) {
    conditions =
        m.set
          (record {
            type = "Ready";
            status = status;
            reason = reason;
            message = text;
            observed_generation = flake.meta.generation;
          })
          flake.status.conditions;
  };
}

-- The environment with the revision as its relock annotation.
unfoldable pub relocked : String → FloxEnv → FloxEnv
relocked revision env = record env {
  meta = record (env.meta) { annotations = insert relock_annotation revision env.meta.annotations };
}

unfoldable pub source_namespace : FloxCatalog → String
source_namespace flake =
    if flake.spec.source_ref.namespace == ""
    then flake.namespace
    else flake.spec.source_ref.namespace

unfoldable pub requests_of : List FloxCatalog → List NamespacedName
requests_of [] = []
requests_of (f ∷ flakes) = record { namespace = f.namespace; name = f.name } ∷ requests_of flakes

-- The catalogs whose source is the object of this namespace and name.
unfoldable pub from_source : String → String → List FloxCatalog → List FloxCatalog
from_source ns name [] = []
from_source ns name (f ∷ flakes) =
    let rest = from_source ns name flakes in
    if f.spec.source_ref.name == name && source_namespace f == ns then f ∷ rest else rest
