-- ===== src/Tests/Queue.antt =====
-- An environment that no reconcile has touched, through the work queue.
use flox_controller.Prelude.{[], ◌∷◌, string_eq, nat_eq, ok, ◌≡◌, refl, arith}
use flox_controller.Api.{FloxEnv}
use flox_controller.Client.{Client}
use flox_controller.Manifest.{end, parse_manifest, resolve_flake_installs, manifest_to_toml}
use flox_controller.EnvController.Types.{Reconciler}
use flox_controller.EnvController.Status.{already_realized, unmet_deps}
use flox_controller.EnvController.Settling.{IsQuiet}
use flox_controller.EnvController.Progress.{Its, IsServed, Done}
use flox_controller.EnvController.Queue.{work, work_lem}
use flox_controller.Tests.Memory.{World, memory, memory-IsQuiet, listed-IsLawful}
use flox_controller.Tests.Environments.{reconciler_of, due, world_of, web_request}

abbrev pub willing : Client
willing = record memory { patch_workload = λ s base w. (ok w, s) }

pub willing-IsQuiet : IsQuiet willing
willing-IsQuiet = record {
  stored-patch = memory-IsQuiet.stored-patch;
  get_named = memory-IsQuiet.get_named;
}

abbrev pub on_it : Reconciler
on_it = reconciler_of willing

abbrev pub untouched : FloxEnv
untouched = record due { status = record (due.status) { conditions = [] } }

-- The server has this environment and no other.
abbrev pub HasIt : World → Type 0
HasIt s =
    (env : FloxEnv) × (s.envs ≡ env ∷ []) × (env.namespace ≡ "networking") × (env.name ≡ "web")

takes_it :
    (s : World) (base env : FloxEnv)
    → HasIt s
    → Its web_request untouched.spec env
    → (stored : FloxEnv) × ((memory.patch_env_status s base env).0 ≡ ok stored)
      × HasIt (memory.patch_env_status s base env).1
takes_it s base env i its = (
  env,
  rw i.1 (ground (arith, i.2, i.3, its.0, its.1)),
  (env, rw i.1 (ground (arith, i.2, i.3, its.0, its.1)), its.0, its.1),
)

pub on_it-IsServed : IsServed on_it web_request (untouched.spec) HasIt
unfolding string_eq nat_eq unmet_deps parse_manifest resolve_flake_installs
    flox_controller.Manifest.lookup_field manifest_to_toml
on_it-IsServed = record {
  patched = takes_it;
  prepared = λ s env i its. rw its.2 (end, end, "", refl, refl, refl, refl);
  free_slot = λ s i. (refl, i);
  realizes = λ s timeout request i. (_, refl, i);
  workloads = λ s kind i. (_, refl);
  workload_patched = λ s base w i. (_, refl, i);
}

work_lem_example :
    Done on_it web_request
      (untouched.spec)
      HasIt
      on_it-IsServed
      willing-IsQuiet
      listed-IsLawful
      (work on_it web_request 5 (world_of untouched []))
unfolding string_eq nat_eq already_realized flox_controller.Prelude.Dict.lookup
    flox_controller.EnvController.Status.realized_here
work_lem_example =
    work_lem on_it web_request (untouched.spec) HasIt on_it-IsServed willing-IsQuiet listed-IsLawful
      4 (world_of untouched []) untouched (untouched, refl, refl, refl) refl refl refl
