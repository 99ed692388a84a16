-- ===== src/EnvController/Delivery.antt =====
-- The end of a realise: the roll of the consumers comes before the record of the lock.
use flox_controller.Prelude.{
  String, ◌<>◌, true, some, string_eq, ok, Error, message, ◌≡◌, ◌≢◌, refl, arith, eq_self, ◌∙◌,
}
use flox_controller.Prelude.Dict.{get}
use flox_controller.Api.{FloxEnv}
use flox_controller.Client.{finish}
use flox_controller.EnvController.Types.{Reconciler, RealizeResult}
use flox_controller.EnvController.Status.{
  set_ready, already_realized, fail, mark_realizing, realized_env, relock_annotation,
}
use flox_controller.EnvController.Restart.{restart_consumers}
use flox_controller.EnvController.Realizations.{
  already_realized-set_ready, already_realized-realized_env,
}
use flox_controller.EnvController.Reconcile.{
  folder_of, consumption_of, lock_of, timeout_of, record_realized, deliver, realise,
}

module _ (r : Reconciler) where
  open r use {client, conditions}

  realized_env-generation :
      (env : FloxEnv) (res : RealizeResult) (relock : String)
      → (realized_env r env res relock).generation ≡ env.generation
  unfolding realized_env
  realized_env-generation env res relock = refl

  -- Where the lock is not empty, has changed, and the roll of the consumers fails, the reconcile returns that error,
  -- and the status that it sends has the lock, the relock token and the realisations of before: the
  -- environment counts as realised only if it did so already.
  pub deliver_failed_roll :
      (s : client.State) (env : FloxEnv) (res : RealizeResult) (previous relock : String)
      (e : Error)
      → res.lock ≢ ""
      → res.lock ≢ previous
      → (restart_consumers r s env res.lock).0 ≡ some e
      → (sent : FloxEnv) × (deliver r s env res previous relock
          ≡ finish
              (some e)
              (client.patch_env_status (restart_consumers r s env res.lock).1 env sent).1)
        × (sent.status.lock ≡ env.status.lock)
        × (sent.status.relock_token ≡ env.status.relock_token)
        × (sent.status.realized ≡ env.status.realized)
        × (already_realized r.node_name sent ≡ already_realized r.node_name env)
  unfolding deliver fail
  deliver_failed_roll s env res previous relock e given changed failed = (
    set_ready conditions env "False" "RestartConsumersFailed" (message e),
    ground arith,
    refl,
    refl,
    refl,
    already_realized-set_ready conditions env r.node_name "False" "RestartConsumersFailed"
        (message e),
  )

  -- The Realizing patch replaces the object by the server's, whose specification may have moved on
  -- since the manifest was read. If the realise of that older manifest succeeds with the lock as
  -- it was, and the relock annotation is the same, the status that is sent still counts as
  -- realised at the generation of the newer object.
  pub realise_of_older_manifest :
      (s : client.State) (env stored : FloxEnv) (toml : String) (res : RealizeResult)
      → let marking = client.patch_env_status s env (
          set_ready conditions env "False" "Realizing"
            ("realising the env closure on " <> r.node_name)) in
        let ran = r.realize marking.1 (timeout_of r) (record {
          ref = record { folder = folder_of env; name = stored.name };
          manifest_toml = toml;
          lock = lock_of env;
          consumption = consumption_of env;
        }) in
        marking.0 ≡ ok stored
        → ran.0 ≡ ok res
        → res.lock ≡ env.status.lock
        → get stored.annotations relock_annotation ≡ get env.annotations relock_annotation
        → (sent : FloxEnv) × ((realise r s env toml).state
            ≡ (client.patch_env_status ran.1 stored sent).1)
          × (sent.generation ≡ stored.generation)
          × (already_realized r.node_name sent ≡ true)
  unfolding realise deliver record_realized mark_realizing
  realise_of_older_manifest s env stored toml res marked done same token = (
    realized_env r stored res (get env.annotations relock_annotation),
    ground arith,
    realized_env-generation stored res _,
    already_realized-realized_env r stored res _ ∙ rw token (eq_self {A = String} _),
  )
