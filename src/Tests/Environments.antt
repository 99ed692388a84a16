-- ===== src/Tests/Environments.antt =====
-- One environment on one node, and the theorems of its controller on it.
use flox_controller.Prelude.{
  ℕ, String, true, false, Option, none, some, List, [], ◌∷◌, ◌==◌, string_eq, nat_eq, Result, ok,
  err, Error, other, message, ◌≡◌, ◌≢◌, refl, ap, if◌then◌else◌, All, subst, Bool-cases, inl, inr,
}
use flox_controller.Api.{FloxEnv, Condition}
use flox_controller.Core.{Workload, WorkloadKind, deployment, daemon_set, stateful_set}
use flox_controller.Client.{Client, NamespacedName, finish, no_requeue}
use flox_controller.Floxenv.{EnvRef, refs_from_annotations}
use flox_controller.Manifest.{end, parse_manifest, resolve_flake_installs, manifest_to_toml}
use flox_controller.EnvController.Types.{Reconciler, RealizeRequest, RealizeResult}
use flox_controller.EnvController.Status.{already_realized, unmet_deps, realized_env}
use flox_controller.EnvController.Restart.{needs_stamp, stamp_consumers, restart_consumers}
use flox_controller.EnvController.Reconcile.{
  deliver, realise, reconcile, reconcile_env, with_manifest, with_resolved, check_deps, take_slot,
  record_realized,
}
use flox_controller.EnvController.Quiescence.{reconcile_settles}
use flox_controller.EnvController.Gates.{with_provisioner, reconcile_unmet_ext}
use flox_controller.EnvController.Delivery.{deliver_failed_roll, realise_of_older_manifest}
use flox_controller.EnvController.Stamps.{
  same_workload, IsPatching, IsRolled, stamp_consumers_twice,
}
use flox_controller.Tests.Memory.{World, memory, memory-IsQuiet, listed, listed-IsLawful}
use flox_controller.Tests.Gate.{env_with}

abbrev pub new_result : RealizeResult
new_result = record {
  store_path = "/nix/store/y";
  env_path = "/env";
  gcroot_path = "/gcroot";
  lock = "lock2";
}

abbrev pub reconciler_of : Client → Reconciler
reconciler_of c = record {
  client = c;
  conditions = listed;
  node_name = "n1";
  realize_timeout = 60;
  realize_slots = 1;
  realize = λ s timeout request. (ok new_result, s);
  wait_slot = λ s. (none, s);
  unmarshal = λ raw. ok end;
  marshal = λ m. ok "";
  sha256 = λ text. 171 ∷ 205 ∷ [];
}

abbrev pub reconciler : Reconciler
reconciler = reconciler_of memory

abbrev pub pending : Condition
pending = record {
  type = "Ready";
  status = "False";
  reason = "Pending";
  message = "queued for realisation";
  observed_generation = 2;
}

abbrev pub due : FloxEnv
due =
    let env = env_with "web" [] in
    record env { status = record (env.status) { lock = "lock1"; conditions = pending ∷ [] } }

abbrev pub world_of : FloxEnv → List Workload → World
world_of env workloads = record {
  envs = env ∷ [];
  catalogs = [];
  pods = [];
  workloads = workloads;
  claims = [];
}

abbrev pub web_request : NamespacedName
web_request = record { namespace = "networking"; name = "web" }

settles_without_error : (reconcile reconciler (world_of due []) web_request).error ≡ none
unfolding reconcile reconcile_env already_realized with_manifest parse_manifest
    resolve_flake_installs with_resolved manifest_to_toml check_deps take_slot realise deliver
    restart_consumers record_realized string_eq nat_eq flox_controller.Prelude.Dict.lookup
    flox_controller.EnvController.Status.realized_here unmet_deps
    flox_controller.EnvController.Restart.join_errors stamp_consumers
    flox_controller.EnvController.Status.mark_realizing realized_env
settles_without_error = refl

settles_without_requeue : (reconcile reconciler (world_of due []) web_request).result ≡ no_requeue
unfolding reconcile reconcile_env already_realized with_manifest parse_manifest
    resolve_flake_installs with_resolved manifest_to_toml check_deps take_slot realise deliver
    restart_consumers record_realized string_eq nat_eq flox_controller.Prelude.Dict.lookup
    flox_controller.EnvController.Status.realized_here unmet_deps
    flox_controller.EnvController.Restart.join_errors stamp_consumers
    flox_controller.EnvController.Status.mark_realizing realized_env
settles_without_requeue = refl

reconcile_settles_example :
    reconcile reconciler (reconcile reconciler (world_of due []) web_request).state web_request
    ≡ finish none (reconcile reconciler (world_of due []) web_request).state
reconcile_settles_example =
    reconcile_settles reconciler memory-IsQuiet listed-IsLawful web_request (world_of due [])
      settles_without_error settles_without_requeue

new_lock_is_given : new_result.lock ≢ ""
unfolding string_eq
new_lock_is_given e = let apart : true ≡ false = ap (λ (x : String). x == "lock2") e in cc

new_lock_is_new : new_result.lock ≢ "lock1"
unfolding string_eq
new_lock_is_new e = let apart : true ≡ false = ap (λ (x : String). x == "lock2") e in cc

-- A consumer that cannot be patched.
abbrev consumer : Workload
consumer = record {
  kind = deployment;
  namespace = "apps";
  name = "d";
  template_annotations = ("flox.seedmatic.io/environment.main", "networking/web") ∷ [];
}

roll_fails :
    (restart_consumers reconciler (world_of due (consumer ∷ [])) due "lock2").0
    ≡ some (other "unsupported")
unfolding restart_consumers string_eq nat_eq flox_controller.EnvController.Restart.join_errors
    stamp_consumers flox_controller.EnvController.Restart.stamp_consumer needs_stamp
    refs_from_annotations flox_controller.Prelude.has_prefix flox_controller.Floxenv.ref_eq
    flox_controller.Prelude.split_last flox_controller.Prelude.Dict.lookup
roll_fails = refl

abbrev rolled_out : World
rolled_out = world_of due (consumer ∷ [])

deliver_failed_roll_example :
    (sent : FloxEnv) × (deliver reconciler rolled_out due new_result "lock1" ""
      ≡ finish
          (some (other "unsupported"))
          (memory.patch_env_status
            (restart_consumers reconciler rolled_out due "lock2").1
            due
            sent).1)
    × (sent.status.lock ≡ "lock1")
    × (sent.status.relock_token ≡ "")
    × (sent.status.realized ≡ [])
    × (already_realized "n1" sent ≡ already_realized "n1" due)
deliver_failed_roll_example =
    deliver_failed_roll reconciler rolled_out due new_result "lock1" "" (other "unsupported")
      new_lock_is_given new_lock_is_new roll_fails

-- A server that holds a newer generation than the reconcile has read.
abbrev newer : FloxEnv
newer = record due { meta = record (due.meta) { generation = 3 } }

abbrev moved_on : Client
moved_on = record memory { patch_env_status = λ s base env. (ok newer, s) }

abbrev same_lock : RealizeResult
same_lock = record new_result { lock = "lock1" }

abbrev behind : Reconciler
behind = record (reconciler_of moved_on) { realize = λ s timeout request. (ok same_lock, s) }

realise_of_older_manifest_example :
    (sent : FloxEnv) × ((realise behind (world_of due []) due "").state
      ≡ (moved_on.patch_env_status (world_of due []) newer sent).1)
    × (sent.generation ≡ 3)
    × (already_realized "n1" sent ≡ true)
realise_of_older_manifest_example =
    realise_of_older_manifest behind (world_of due []) due newer "" same_lock refl refl refl refl

abbrev dependent : FloxEnv
dependent = record due { spec = record (due.spec) { depends_on = "base" ∷ "web" ∷ [] } }

abbrev failing_realize : World → ℕ → RealizeRequest → Result RealizeResult × World
failing_realize s timeout request = (err (other "no"), s)

abbrev never_free : World → Option Error × World
never_free s = (some (other "cancelled"), s)

reconcile_unmet_ext_example :
    reconcile
      (with_provisioner reconciler failing_realize never_free)
      (world_of dependent [])
      web_request
    ≡ reconcile reconciler (world_of dependent []) web_request
unfolding string_eq
reconcile_unmet_ext_example =
    reconcile_unmet_ext reconciler failing_realize never_free listed-IsLawful
      (world_of dependent []) web_request dependent "base" refl refl refl

abbrev web_ref : EnvRef
web_ref = record { folder = "networking"; name = "web" }

-- The server with patches: the workload that is patched is replaced.
abbrev patched : Workload → Workload → List Workload → List Workload
patched base sent [] = []
patched base sent (x ∷ ws) = (if same_workload x base then sent else x) ∷ patched base sent ws

abbrev patchable : Client
patchable = record memory {
  patch_workload = λ s base w. (ok w, record s { workloads = patched base w s.workloads });
}

All-patched :
    (P : Workload → Type 0) (base sent : Workload) (ws : List Workload)
    → All (λ x. same_workload x base ≡ false → P x) ws
    → P sent
    → All P (patched base sent ws)
All-patched P base sent [] h p = tt
All-patched P base sent (x ∷ ws) (here, there) p = (
  elim (Bool-cases (same_workload x base)) [
    | inl same ↦ rw same p
    | inr apart ↦ rw apart (here apart)
  ],
  All-patched P base sent ws there p,
)

patchable-list :
    (s : World) (kind : WorkloadKind) (base sent : Workload) (ws : List Workload)
    → patchable.list_workloads s kind ≡ ok ws
    → (ws' : List Workload) × (patchable.list_workloads
          (patchable.patch_workload s base sent).1
          kind
        ≡ ok ws')
      × ((P : Workload → Type 0)
          → All (λ x. same_workload x base ≡ false → P x) ws
          → P sent
          → All P ws')
patchable-list s deployment base sent ws h =
    let same : ws ≡ s.workloads = cc in
    (
      patched base sent s.workloads,
      refl,
      λ P held p.
          All-patched P base sent s.workloads
            (subst (All (λ x. same_workload x base ≡ false → P x)) same held) p,
    )
patchable-list s daemon_set base sent ws h = ([], refl, λ P held p. tt)
patchable-list s stateful_set base sent ws h = ([], refl, λ P held p. tt)

patchable-IsPatching : IsPatching patchable
patchable-IsPatching = record {
  list-patch = λ s kind base sent stored ws h good. patchable-list s kind base sent ws h;
}

one_consumer : patchable.list_workloads rolled_out deployment ≡ ok (consumer ∷ [])
one_consumer = refl

first_roll : (stamp_consumers patchable rolled_out (consumer ∷ []) web_ref "abcd").0 ≡ none
unfolding stamp_consumers needs_stamp string_eq nat_eq
    flox_controller.EnvController.Restart.stamp_consumer
    flox_controller.EnvController.Restart.join_errors refs_from_annotations
    flox_controller.Prelude.has_prefix flox_controller.Floxenv.ref_eq
    flox_controller.Prelude.split_last flox_controller.Prelude.Dict.lookup
first_roll = refl

stamp_consumers_twice_example :
    let s' = (stamp_consumers patchable rolled_out (consumer ∷ []) web_ref "abcd").1 in
    (ws' : List Workload) × (patchable.list_workloads s' deployment ≡ ok ws')
    × All (IsRolled web_ref "abcd") ws'
    × (stamp_consumers patchable s' ws' web_ref "abcd" ≡ (none, s'))
stamp_consumers_twice_example =
    stamp_consumers_twice patchable patchable-IsPatching rolled_out deployment (consumer ∷ [])
      web_ref "abcd" one_consumer first_roll
