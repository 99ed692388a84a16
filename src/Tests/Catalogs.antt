-- ===== src/Tests/Catalogs.antt =====
-- A catalog, the environments that it serves and the base carrier, and the theorems on them.
use flox_controller.Prelude.{
  String, ◌<>◌, true, false, none, [], ◌∷◌, ◌==◌, string_eq, nat_eq, ok, err, other, ◌≡◌, ◌≢◌, refl,
  ap, split_first,
}
use flox_controller.Api.{FloxEnv, FloxCatalog, Condition}
use flox_controller.Client.{Client, NamespacedName}
use flox_controller.PodGate.Waiters.{request_eq}
use flox_controller.Manifest.Resolution.{IsTarball}
use flox_controller.Catalog.{
  CatalogReconciler, relock_all, readiness, env_readiness_change, rollup, reconcile,
}
use flox_controller.Catalog.Readiness.{rollup_ext}
use flox_controller.Catalog.Resolution.{IsMerging, reconcile-IsTarball}
use flox_controller.Carrier.{desired_base, ensure_base}
use flox_controller.Carrier.Ownership.{IsEnsured, ensure_base-IsEnsured}
use flox_controller.Tests.Memory.{memory, listed, memory-IsMerging, memory-IsStoring}
use flox_controller.Tests.Gate.{env_with, realized_on_node}
use flox_controller.Tests.References.{
  tools_catalog, catalog_world, catalog_world-CatalogsAreTarballs,
}

-- A server that has the source of every catalog.
abbrev sourced : Client
sourced = record memory {
  get_git_repository = λ s ns name. ok (record { url = "http://source/y.tar.gz"; revision = "r2" });
}

sourced-IsMerging : IsMerging sourced
sourced-IsMerging = record {
  get-patch = memory-IsMerging.get-patch;
  get-patch_env = memory-IsMerging.get-patch_env;
}

-- A URL is its text here, and every host an address.
abbrev pub catalogs : CatalogReconciler
catalogs = record {
  client = sourced;
  conditions = listed;
  Url = String;
  parse_url = λ raw. ok raw;
  hostname = λ u. u;
  port = λ u. "";
  with_host = λ host u. host;
  url_text = λ u. u;
  is_ip = λ host. true;
  lookup_host = λ s host. err (other "no such host");
  join_host_port = λ host port. host <> (":" <> port);
}

abbrev web_env : FloxEnv
web_env = env_with "web" (realized_on_node "n1" ∷ [])

abbrev realizing : Condition
realizing = record {
  type = "Ready";
  status = "False";
  reason = "Realizing";
  message = "";
  observed_generation = 1;
}

abbrev with_condition : String → FloxEnv
with_condition text = record web_env {
  status = record (web_env.status) { conditions = record realizing { message = text } ∷ [] };
}

unchanged : env_readiness_change catalogs (with_condition "a") (with_condition "b") ≡ false
unfolding env_readiness_change string_eq readiness flox_controller.Catalog.readiness_of
unchanged = refl

rollup_ext_example :
    rollup catalogs (with_condition "a" ∷ []) ≡ rollup catalogs (with_condition "b" ∷ [])
unfolding string_eq nat_eq split_first
rollup_ext_example =
    rollup_ext catalogs (with_condition "a" ∷ []) (with_condition "b" ∷ [])
      (refl, unchanged, refl, refl, tt)

abbrev tools_request : NamespacedName
tools_request = record { namespace = "flux"; name = "tools" }

-- The catalog once its source is resolved.
abbrev published : FloxCatalog
published = record tools_catalog {
  status = record {
    revision = "r2";
    artifact_url = "http://source/y.tar.gz";
    flake_ref = "tarball+http://source/y.tar.gz";
    envs_summary = "0/0 ready";
    envs = [];
    conditions =
        record {
          type = "Ready";
          status = "True";
          reason = "Resolved";
          message = "resolved from GitRepository src at r2";
          observed_generation = 1;
        }
        ∷ [];
  };
}

published_is_read :
    memory.get_catalog (reconcile catalogs catalog_world tools_request).state "flux" "tools"
    ≡ ok published
unfolding reconcile string_eq nat_eq flox_controller.Catalog.resolve
    flox_controller.Catalog.with_artifact flox_controller.Catalog.node_reachable_url
    flox_controller.Catalog.publish flox_controller.Catalog.resolved_catalog
    flox_controller.Catalog.propagate_relock relock_all flox_controller.Catalog.flake_ref_of
    flox_controller.Catalog.envs_rollup rollup flox_controller.Catalog.rollup_summary
    flox_controller.Catalog.plan_of flox_controller.Prelude.decimal
published_is_read = refl

published_has_reference : published.status.flake_ref ≢ ""
unfolding string_eq
published_has_reference e =
    let apart : true ≡ false = ap (λ (x : String). x == "tarball+http://source/y.tar.gz") e in cc

reconcile-IsTarball_example : IsTarball "tarball+http://source/y.tar.gz"
reconcile-IsTarball_example =
    reconcile-IsTarball catalogs sourced-IsMerging catalog_world tools_request
      catalog_world-CatalogsAreTarballs "flux" "tools" published published_is_read
      published_has_reference

base_created : (ensure_base memory catalog_world (ok web_env) "flox").0 ≡ none
unfolding ensure_base string_eq flox_controller.Carrier.ensure_desired
    flox_controller.Carrier.create_base
base_created = refl

ensure_base-IsEnsured_example :
    IsEnsured memory memory-IsStoring catalog_world
      (ensure_base memory catalog_world (ok web_env) "flox").1
      (desired_base web_env "flox")
ensure_base-IsEnsured_example =
    ensure_base-IsEnsured memory memory-IsStoring catalog_world web_env "flox" base_created
