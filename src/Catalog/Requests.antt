-- ===== src/Catalog/Requests.antt =====
-- Which catalogs a changed source wakes.
use flox_controller.Prelude.{
  String, Bool, false, ◌&&◌, ◌||◌, List, [], ◌∷◌, ◌==◌, string_eq, if◌then◌else◌, contains, ok, ◌≡◌,
  refl, arith,
}
use flox_controller.Api.{FloxCatalog}
use flox_controller.Client.{NamespacedName}
use flox_controller.PodGate.Waiters.{request_eq}
use flox_controller.Catalog.{
  CatalogReconciler, source_namespace, requests_of, from_source, catalogs_for_source,
}

-- Some catalog of the request's name refers to the source.
abbrev pub some_catalog_refers : String → String → List FloxCatalog → NamespacedName → Bool
some_catalog_refers ns name [] req = false
some_catalog_refers ns name (f ∷ flakes) req =
    (req == record { namespace = f.namespace; name = f.name }
      && f.spec.source_ref.name == name
      && (if f.spec.source_ref.namespace == "" then f.namespace else f.spec.source_ref.namespace)
        == ns)
    || some_catalog_refers ns name flakes req

contains-requests_of :
    (ns name : String) (flakes : List FloxCatalog) (req : NamespacedName)
    → contains (requests_of (from_source ns name flakes)) req
      ≡ some_catalog_refers ns name flakes req
unfolding requests_of from_source source_namespace
contains-requests_of ns name [] req = refl
contains-requests_of ns name (f ∷ flakes) req =
    ground (arith, contains-requests_of ns name flakes req)

-- A change of a source asks for a reconcile of exactly the catalogs that refer to it by its name and
-- its namespace, which is the catalog's own where the reference has none. The catalogs can be listed.
pub contains-catalogs_for_source :
    (r : CatalogReconciler) (s : r.client.State) (ns name : String) (flakes : List FloxCatalog)
    (req : NamespacedName)
    → r.client.list_catalogs s ≡ ok flakes
    → contains (catalogs_for_source r s ns name) req ≡ some_catalog_refers ns name flakes req
unfolding catalogs_for_source
contains-catalogs_for_source r s ns name flakes req listed =
    rw (listed, catalogs_for_source) (contains-requests_of ns name flakes req)
