-- ===== src/Catalog.antt =====
-- internal/controller/floxcatalog_controller.go: a catalog is resolved to the tarball of its source's
-- artifact, and the environments of its namespace are told to lock again.
mod Objects
mod Rollup
pub mod Relock
pub mod Readiness
pub mod Resolution
pub mod Requests
unfoldable pub use Objects.*
unfoldable pub use Rollup.*
use flox_controller.Prelude.{
  String, ◌<>◌, Bool, true, false, not, Option, none, some, List, [], ◌∷◌, ◌==◌, string_eq, nat_eq,
  if◌then◌else◌, length, Result, ok, err, Error, other, wrap, message, ignore_not_found,
}
use flox_controller.Prelude.Dict.{get}
use flox_controller.Api.{FloxEnv, FloxCatalog, FloxEnvPhase}
use flox_controller.Client.{Client, Artifact, NamespacedName, Outcome, finish}
use flox_controller.Conditions.{Conditions}
use flox_controller.EnvController.Status.{relock_annotation}

-- The reconciler's client, and what it uses of `net/url` and `net`: `parse_url` is
-- `url.Parse`, `is_ip` whether `net.ParseIP` finds an address, `lookup_host` is
-- `net.LookupHost`, `with_host` sets the host of a URL, and `url_text` is its text.
pub record CatalogReconciler : Type 1 where
  pub client : Client
  pub conditions : Conditions
  pub Url : Type 0
  pub parse_url : String → Result Url
  pub hostname : Url → String
  pub port : Url → String
  pub with_host : String → Url → Url
  pub url_text : Url → String
  pub is_ip : String → Bool
  pub lookup_host : client.State → String → Result (List String)
  pub join_host_port : String → String → String

module _ (r : CatalogReconciler) where
  open r use {client, conditions}

  unfoldable pub readiness : FloxEnv → String
  readiness env = readiness_of (conditions.find "Ready" env.status.conditions)

  -- `UpdateFunc` of `envReadinessChange`, on two environments.
  unfoldable pub env_readiness_change : FloxEnv → FloxEnv → Bool
  env_readiness_change before after = not (readiness before == readiness after)

  -- The loop of the rollup.
  unfoldable pub plan_of : List FloxEnv → Counts → Counts × List FloxEnvPhase
  plan_of [] n = (n, [])
  plan_of (env ∷ envs) n =
      let c = conditions.find "Ready" env.status.conditions in
      let (n', plan) = plan_of envs (count c n) in
      (n', record { name = env.name; phase = phase_of c } ∷ plan)

  -- `envsRollup`, on the environments that are listed.
  unfoldable pub rollup : List FloxEnv → String × List FloxEnvPhase
  rollup envs =
      let (n, plan) = plan_of envs (record { ready = 0; realizing = 0 }) in
      (rollup_summary (length envs) n, plan)

  unfoldable pub envs_rollup : client.State → String → String × List FloxEnvPhase
  envs_rollup s namespace = elim (client.list_envs_in s namespace) [
    | err e ↦ ("", [])
    | ok envs ↦ rollup envs
  ]

  -- The loop of `propagateRelock`; it stops at the first patch that fails.
  unfoldable pub relock_all : client.State → List FloxEnv → String → Option Error × client.State
  relock_all s [] revision = (none, s)
  relock_all s (env ∷ envs) revision =
      let skipped = relock_all s envs revision in
      let (patched, s') = client.patch_env s env (relocked revision env) in
      let after = relock_all s' envs revision in
      elim (get env.meta.annotations relock_annotation == revision) [
        | true ↦ skipped
        | false ↦ elim patched [ err e ↦ (some e, s') | ok stored ↦ after ]
      ]

  unfoldable pub propagate_relock : client.State → String → String → Option Error × client.State
  propagate_relock s namespace revision =
      if revision == "" then (none, s) else elim (client.list_envs_in s namespace) [
        | err e ↦ (some e, s)
        | ok envs ↦ relock_all s envs revision
      ]

  unfoldable pub not_ready : client.State → FloxCatalog → String → Error → Outcome client.State
  not_ready s flake reason cause =
      finish (some cause)
        (client.patch_catalog_status s flake
          (set_catalog_ready conditions flake "False" reason (message cause))).1

  -- The URL with the first address that its host has, unless the host is one.
  unfoldable pub at_address : String → r.Url → Result (List String) → Result String
  at_address host u (err e) = err (wrap ("resolve artifact host \"" <> (host <> "\"")) e)
  at_address host u (ok []) =
      err (other ("resolve artifact host \"" <> (host <> "\": no addresses")))
  at_address host u (ok (ip ∷ ips)) = ok (
      r.url_text
        (r.with_host (if not (r.port u == "") then r.join_host_port ip (r.port u) else ip) u))

  unfoldable pub node_reachable_url : client.State → String → Result String
  node_reachable_url s raw = elim (r.parse_url raw) [
    | err e ↦ err e
    | ok u ↦
        if r.is_ip (r.hostname u)
        then ok raw
        else at_address (r.hostname u) u (r.lookup_host s (r.hostname u))
  ]

  unfoldable pub flake_ref_of : FloxCatalog → String → String
  flake_ref_of flake url =
      if not (flake.spec.dir == "")
      then ("tarball+" <> url) <> ("?dir=" <> flake.spec.dir)
      else "tarball+" <> url

  -- The status that is sent once the source is resolved.
  unfoldable pub resolved_catalog : client.State → FloxCatalog → Artifact → String → FloxCatalog
  resolved_catalog s flake artifact url =
      let (summary, plan) = envs_rollup s flake.namespace in
      set_catalog_ready conditions
        (record flake {
          status = record (flake.status) {
            revision = artifact.revision;
            artifact_url = artifact.url;
            flake_ref = flake_ref_of flake url;
            envs_summary = summary;
            envs = plan;
          };
        })
        "True" "Resolved"
        ("resolved from GitRepository "
          <> (flake.spec.source_ref.name <> (" at " <> artifact.revision)))

  -- The status patch, and the relock of the environments of the namespace.
  unfoldable pub publish : client.State → FloxCatalog → Artifact → String → Outcome client.State
  publish s flake artifact url =
      let (patched, s') =
        client.patch_catalog_status s flake (resolved_catalog s flake artifact url) in
      elim patched [
        | err e ↦ finish (some e) s'
        | ok stored ↦
            let (failure, s'') = propagate_relock s' stored.namespace artifact.revision in
            finish failure s''
      ]

  unfoldable pub with_artifact : client.State → FloxCatalog → Artifact → Outcome client.State
  with_artifact s flake artifact =
      if artifact.url == ""
      then not_ready s flake "ArtifactNotReady" (
          other (
            "GitRepository "
            <> (source_namespace flake
                <> ("/" <> (flake.spec.source_ref.name <> " has no status.artifact.url yet")))))
      else elim (node_reachable_url s artifact.url) [
        | err e ↦ not_ready s flake "ArtifactURLUnresolvable" e
        | ok url ↦ publish s flake artifact url
      ]

  unfoldable pub resolve : client.State → FloxCatalog → Outcome client.State
  resolve s flake =
      elim (client.get_git_repository s (source_namespace flake) flake.spec.source_ref.name) [
        | err e ↦ not_ready s flake "SourceNotFound" e
        | ok artifact ↦ with_artifact s flake artifact
      ]

  unfoldable pub reconcile : client.State → NamespacedName → Outcome client.State
  reconcile s req = elim (client.get_catalog s req.namespace req.name) [
    | err e ↦ finish (ignore_not_found e) s
    | ok flake ↦ resolve s flake
  ]

  -- With the namespace and the name of the source that changed.
  unfoldable pub catalogs_for_source : client.State → String → String → List NamespacedName
  catalogs_for_source s ns name = elim (client.list_catalogs s) [
    | err e ↦ []
    | ok flakes ↦ requests_of (from_source ns name flakes)
  ]

  unfoldable pub catalogs_for_env : client.State → FloxEnv → List NamespacedName
  catalogs_for_env s env = elim (client.list_catalogs_in s env.namespace) [
    | err e ↦ []
    | ok flakes ↦ requests_of flakes
  ]
