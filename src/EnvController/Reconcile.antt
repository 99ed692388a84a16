-- ===== src/EnvController/Reconcile.antt =====
-- Reconcile, in the order of its early returns.
use flox_controller.Prelude.{
  ℕ, String, ◌&&◌, not, none, some, List, [], ◌∷◌, ◌==◌, string_eq, nat_eq, if◌then◌else◌, Result,
  ok, err, ignore_not_found,
}
use flox_controller.Prelude.Dict.{get}
use flox_controller.Api.{FloxEnv}
use flox_controller.Client.{NamespacedName, Outcome, finish}
use flox_controller.Manifest.{
  Fields, Resolved, waiting, resolved, parse_manifest, resolve_flake_installs, manifest_to_toml,
}
use flox_controller.EnvController.Types.{Reconciler, RealizeResult}
use flox_controller.EnvController.Status.{
  relock_annotation, already_realized, fail, wait_for_flake, mark_pending, mark_realizing,
  unmet_deps, wait_for_deps, realized_env,
}
use flox_controller.EnvController.Restart.{restart_consumers}

-- Half an hour, in seconds.
abbrev pub default_realize_timeout : ℕ
default_realize_timeout = 1800

unfoldable pub folder_of : FloxEnv → String
folder_of env = if env.spec.folder == "" then env.namespace else env.spec.folder

unfoldable pub consumption_of : FloxEnv → String
consumption_of env = if env.spec.consumption == "" then "overlay" else env.spec.consumption

-- The lock that is realised: none where a relock is asked for.
unfoldable pub lock_of : FloxEnv → String
lock_of env =
    if not (get env.annotations relock_annotation == env.status.relock_token)
    then ""
    else env.status.lock

unfoldable pub timeout_of : Reconciler → ℕ
timeout_of r = if r.realize_timeout == 0 then default_realize_timeout else r.realize_timeout

module _ (r : Reconciler) where
  open r use {client, conditions}

  -- The status patch that records a realise.
  unfoldable pub record_realized :
      client.State → FloxEnv → RealizeResult → String → Outcome client.State
  record_realized s env res relock =
      let (patched, s') = client.patch_env_status s env (realized_env r env res relock) in
      elim patched [ err e ↦ finish (some e) s' | ok stored ↦ finish none s' ]

  -- After a realise, with the lock from before it. The consumers are rolled before the lock is
  -- recorded, and only if it changed.
  unfoldable pub deliver :
      client.State → FloxEnv → RealizeResult → String → String → Outcome client.State
  deliver s env res previous relock =
      if not (res.lock == "") && not (res.lock == previous)
      then (let (failure, s') = restart_consumers r s env res.lock in
          elim failure [
            | some e ↦ fail r s' env "RestartConsumersFailed" e
            | none ↦ record_realized s' env res relock
          ])
      else record_realized s env res relock

  -- With a slot: the object is the one that the Realizing patch leaves, but the manifest, the lock
  -- and the token are those read before it.
  unfoldable pub realise : client.State → FloxEnv → String → Outcome client.State
  realise s env toml =
      let (env', s') = mark_realizing r s env in
      let (result, s'') = r.realize s' (timeout_of r) (record {
        ref = record { folder = folder_of env; name = env'.name };
        manifest_toml = toml;
        lock = lock_of env;
        consumption = consumption_of env;
      }) in
      elim result [
        | err e ↦ fail r s'' env' "RealizeFailed" e
        | ok res ↦ deliver s'' env' res env.status.lock (get env.annotations relock_annotation)
      ]

  unfoldable pub take_slot : client.State → FloxEnv → String → Outcome client.State
  take_slot s env toml =
      let (stopped, s') = r.wait_slot s in
      elim stopped [ some e ↦ finish (some e) s' | none ↦ realise s' env toml ]

  unfoldable pub check_deps : client.State → FloxEnv → String → List String → Outcome client.State
  check_deps s env toml [] = take_slot s env toml
  check_deps s env toml (name ∷ names) = wait_for_deps r s env (name ∷ names)

  unfoldable pub with_resolved : client.State → FloxEnv → Result Resolved → Outcome client.State
  with_resolved s env (err e) = fail r s env "FlakeResolveFailed" e
  with_resolved s env (ok waiting) = wait_for_flake r s env
  with_resolved s env (ok (resolved m)) = elim (manifest_to_toml r.marshal m) [
    | err e ↦ fail r s env "SerializeFailed" e
    | ok toml ↦ check_deps s env toml (unmet_deps r s env)
  ]

  unfoldable pub with_manifest : client.State → FloxEnv → Result Fields → Outcome client.State
  with_manifest s env (err e) = fail r s env "SerializeFailed" e
  with_manifest s env (ok m) = with_resolved s env (resolve_flake_installs client s env.namespace m)

  unfoldable pub reconcile_env : client.State → FloxEnv → Outcome client.State
  reconcile_env s env = elim (conditions.find "Ready" env.status.conditions) [
    | none ↦ mark_pending r s env
    | some ready ↦
        if already_realized r.node_name env
        then finish none s
        else with_manifest s env (parse_manifest r.unmarshal env.spec.manifest)
  ]

  unfoldable pub reconcile : client.State → NamespacedName → Outcome client.State
  reconcile s req = elim (client.get_env s req.namespace req.name) [
    | err e ↦ finish (ignore_not_found e) s
    | ok env ↦ reconcile_env s env
  ]
