-- ===== src/EnvController/Status.antt =====
-- The status of an environment: its Ready condition, its realisations by node, and what asks for a
-- realise.
use flox_controller.Prelude.{
  ℕ, String, ◌<>◌, Bool, true, false, ◌&&◌, ◌||◌, not, none, some, List, [], ◌∷◌, ◌==◌, string_eq,
  nat_eq, if◌then◌else◌, join, Result, ok, err, Error, message,
}
use flox_controller.Prelude.Dict.{get}
use flox_controller.Api.{FloxEnv, NodeRealization}
use flox_controller.Client.{Outcome, finish}
use flox_controller.Conditions.{Conditions}
use flox_controller.EnvController.Types.{Reconciler, RealizeResult}

abbrev pub relock_annotation : String
relock_annotation = "flox.seedmatic.io/relock"

-- The environment with its Ready condition set, for its current generation.
abbrev pub set_ready : Conditions → FloxEnv → String → String → String → FloxEnv
set_ready m env status reason text = record env {
  status = record (env.status) {
    conditions =
        m.set
          (record {
            type = "Ready";
            status = status;
            reason = reason;
            message = text;
            observed_generation = env.meta.generation;
          })
          env.status.conditions;
  };
}

-- The object after a patch: the server's, or the caller's where the patch failed.
abbrev pub after_patch : FloxEnv → Result FloxEnv → FloxEnv
after_patch env (ok stored) = stored
after_patch env (err e) = env

-- The loop of `alreadyRealized`.
unfoldable pub realized_here : String → ℕ → List NodeRealization → Bool
realized_here node generation [] = false
realized_here node generation (nr ∷ realized) =
    (nr.node == node && nr.ready && nr.observed_generation == generation)
    || realized_here node generation realized

unfoldable pub already_realized : String → FloxEnv → Bool
already_realized node env =
    if not (get env.annotations relock_annotation == env.status.relock_token)
    then false
    else realized_here node env.generation env.status.realized

unfoldable pub upsert_realization : NodeRealization → List NodeRealization → List NodeRealization
upsert_realization nr [] = nr ∷ []
upsert_realization nr (old ∷ realized) =
    if old.node == nr.node then nr ∷ realized else old ∷ upsert_realization nr realized

module _ (r : Reconciler) where
  open r use {client, conditions}

  -- The status patch of an environment, whose error is dropped.
  abbrev patch_quietly : client.State → FloxEnv → FloxEnv → client.State
  patch_quietly s base env = (client.patch_env_status s base env).1

  unfoldable pub fail : client.State → FloxEnv → String → Error → Outcome client.State
  fail s env reason cause =
      finish (some cause)
        (patch_quietly s env (set_ready conditions env "False" reason (message cause)))

  unfoldable pub wait_for_flake : client.State → FloxEnv → Outcome client.State
  wait_for_flake s env = record {
    result = record { requeue = false; requeue_after = 15 };
    error = none;
    state = patch_quietly s env (
        set_ready conditions env "False" "WaitingForFlake"
          "referenced FloxCatalog has not resolved an artifact yet");
  }

  unfoldable pub mark_pending : client.State → FloxEnv → Outcome client.State
  mark_pending s env =
      let (patched, s') =
        client.patch_env_status s env
          (set_ready conditions env "False" "Pending" "queued for realisation") in
      elim patched [
        | err e ↦ finish (some e) s'
        | ok stored ↦ record {
          result = record { requeue = true; requeue_after = 0 };
          error = none;
          state = s';
        }
      ]

  -- The environment as it stands after the patch, and the state.
  unfoldable pub mark_realizing : client.State → FloxEnv → FloxEnv × client.State
  mark_realizing s env =
      let marked =
        set_ready conditions env "False" "Realizing"
          ("realising the env closure on " <> r.node_name) in
      let (patched, s') = client.patch_env_status s env marked in (after_patch marked patched, s')

  -- The dependencies that are not ready; one that cannot be read is not.
  unfoldable pub unmet_in : client.State → String → List String → List String
  unmet_in s namespace [] = []
  unmet_in s namespace (name ∷ names) =
      let rest = unmet_in s namespace names in
      elim (client.get_env s namespace name) [
        | err e ↦ name ∷ rest
        | ok dep ↦
            if not (conditions.is_true "Ready" dep.status.conditions) then name ∷ rest else rest
      ]

  unfoldable pub unmet_deps : client.State → FloxEnv → List String
  unfolding unmet_in
  unmet_deps s env = unmet_in s env.namespace env.spec.depends_on

  unfoldable pub wait_for_deps : client.State → FloxEnv → List String → Outcome client.State
  unfolding join
  wait_for_deps s env unmet = record {
    result = record { requeue = false; requeue_after = 10 };
    error = none;
    state = patch_quietly s env (
        set_ready conditions env "False" "WaitingForDeps"
          ("waiting for FloxEnvs to be Ready: " <> join unmet ", "));
  }

  -- The environment once it is realised: the status that is sent after a realise.
  unfoldable pub realized_env : FloxEnv → RealizeResult → String → FloxEnv
  realized_env env res relock =
      set_ready conditions
        (record env {
          status = record (env.status) {
            lock = if not (res.lock == "") then res.lock else env.status.lock;
            relock_token = relock;
            realized =
                upsert_realization
                  (record {
                    node = r.node_name;
                    ready = true;
                    store_path = res.store_path;
                    env_path = res.env_path;
                    gcroot_path = res.gcroot_path;
                    observed_generation = env.meta.generation;
                  })
                  env.status.realized;
          };
        })
        "True" "Realized" ("realized on " <> (r.node_name <> (" at " <> res.store_path)))
