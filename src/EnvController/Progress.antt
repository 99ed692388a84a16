-- ===== src/EnvController/Progress.antt =====
-- With a server that takes the writes and a provisioner that succeeds, a reconcile realises.
use flox_controller.Prelude.{
  ℕ, String, true, ◌&&◌, not, none, List, [], ◌∷◌, ◌==◌, string_eq, nat_eq, ok, ◌≡◌, refl, ap, ◌∙◌,
  Bool-cases, eq_self, inl, inr,
}
use flox_controller.Prelude.Dict.{get}
use flox_controller.Api.{FloxEnv, FloxEnvSpec, Condition}
use flox_controller.Core.{Workload, WorkloadKind, deployment, daemon_set, stateful_set}
use flox_controller.Client.{NamespacedName, Outcome, no_requeue}
use flox_controller.Conditions.{Conditions, IsLawful}
use flox_controller.Manifest.{
  Fields, resolved, parse_manifest, resolve_flake_installs, manifest_to_toml,
}
use flox_controller.Floxenv.{EnvRef}
use flox_controller.EnvController.Types.{Reconciler, RealizeRequest, RealizeResult}
use flox_controller.EnvController.Status.{
  already_realized, unmet_deps, mark_realizing, realized_env, relock_annotation,
}
use flox_controller.EnvController.Restart.{
  needs_stamp, stamped, stamp_consumer, stamp_consumers, join_errors, roll, restart_consumers,
  target_of, lock_digest,
}
use flox_controller.EnvController.Reconcile.{
  folder_of, consumption_of, lock_of, timeout_of, record_realized, deliver, realise, take_slot,
}
use flox_controller.EnvController.Realizations.{already_realized-realized_env}
use flox_controller.EnvController.Settling.{IsQuiet, find-set_ready, mark_realizing-eq}

-- The environment has the name and the specification.
abbrev pub Its : NamespacedName → FloxEnvSpec → FloxEnv → Type 0
Its req spec env = (env.namespace ≡ req.namespace) × (env.name ≡ req.name) × (env.spec ≡ spec)

-- What holds in the states of `I`, and lets an environment be realised: the server takes the status
-- patches of the environment and those of workloads and lists these, the manifest is resolved and
-- written, no dependency is unmet, there is a free slot, and the provisioner succeeds. What the
-- reconcile calls leads from such states to such states.
pub record IsServed (r : Reconciler) (req : NamespacedName) (spec : FloxEnvSpec)
    (I : r.client.State → Type 0) : Type 0 where
  pub patched :
      (s : r.client.State) (base env : FloxEnv)
      → I s
      → Its req spec env
      → (stored : FloxEnv) × ((r.client.patch_env_status s base env).0 ≡ ok stored)
        × I (r.client.patch_env_status s base env).1
  pub prepared :
      (s : r.client.State) (env : FloxEnv)
      → I s
      → Its req spec env
      → (m m' : Fields) × (toml : String) × (parse_manifest r.unmarshal env.spec.manifest ≡ ok m)
        × (resolve_flake_installs r.client s env.namespace m ≡ ok (resolved m'))
        × (manifest_to_toml r.marshal m' ≡ ok toml)
        × (unmet_deps r s env ≡ [])
  pub free_slot : (s : r.client.State) → I s → ((r.wait_slot s).0 ≡ none) × I (r.wait_slot s).1
  pub realizes :
      (s : r.client.State) (timeout : ℕ) (request : RealizeRequest)
      → I s
      → (res : RealizeResult) × ((r.realize s timeout request).0 ≡ ok res)
        × I (r.realize s timeout request).1
  pub workloads :
      (s : r.client.State) (kind : WorkloadKind)
      → I s
      → (ws : List Workload) × (r.client.list_workloads s kind ≡ ok ws)
  pub workload_patched :
      (s : r.client.State) (base w : Workload)
      → I s
      → (stored : Workload) × ((r.client.patch_workload s base w).0 ≡ ok stored)
        × I (r.client.patch_workload s base w).1

is_true-set :
    (m : Conditions)
    → IsLawful m
    → (c : Condition) (cs : List Condition) → c.type ≡ "Ready"
    → c.status ≡ "True"
    → m.is_true "Ready" (m.set c cs) ≡ true
is_true-set m lawful c cs ready truth =
    rw (lawful.is_true-find "Ready" (m.set c cs), find-set_ready m lawful c cs ready, truth)
      (eq_self {A = String} "True")

module _ (r : Reconciler) (req : NamespacedName) (spec : FloxEnvSpec) (I : r.client.State → Type 0)
    (served : IsServed r req spec I) where
  open r use {client, conditions}

  stamp_consumer-none :
      (s : client.State) (w : Workload) (target : EnvRef) (digest : String)
      → I s
      → ((stamp_consumer client s w target digest).0 ≡ none)
        × I (stamp_consumer client s w target digest).1
  unfolding stamp_consumer
  stamp_consumer-none s w target digest i =
      let (stored, accepted, i') = served.workload_patched s w (stamped digest w) i in
      elim (Bool-cases (needs_stamp target digest w)) [
        | inl due ↦ rw (stamp_consumer, due) (rw accepted refl, i')
        | inr stamped_already ↦ rw (stamp_consumer, stamped_already) (refl, i)
      ]

  stamp_consumers-none :
      (s : client.State) (ws : List Workload) (target : EnvRef) (digest : String)
      → I s
      → ((stamp_consumers client s ws target digest).0 ≡ none)
        × I (stamp_consumers client s ws target digest).1
  unfolding stamp_consumers join_errors
  stamp_consumers-none s [] target digest i = (refl, i)
  stamp_consumers-none s (w ∷ ws) target digest i =
      let first = stamp_consumer-none s w target digest i in
      let others =
        stamp_consumers-none (stamp_consumer client s w target digest).1 ws target digest first.1 in
      (rw (first.0, join_errors) others.0, others.1)

  roll-none :
      (s : client.State) (target : EnvRef) (digest : String) (ds es fs : List Workload)
      → I s
      → ((roll client s target digest (ok ds) (ok es) (ok fs)).0 ≡ none)
        × I (roll client s target digest (ok ds) (ok es) (ok fs)).1
  unfolding roll join_errors
  roll-none s target digest ds es fs i =
      let first = stamp_consumers-none s ds target digest i in
      let s' : client.State = (stamp_consumers client s ds target digest).1 in
      let second = stamp_consumers-none s' es target digest first.1 in
      let s'' : client.State = (stamp_consumers client s' es target digest).1 in
      let third = stamp_consumers-none s'' fs target digest second.1 in
      (rw (first.0, second.0, third.0) refl, third.1)

  -- No roll of the consumers fails.
  restart_consumers-none :
      (s : client.State) (env : FloxEnv) (lock : String)
      → I s
      → ((restart_consumers r s env lock).0 ≡ none) × I (restart_consumers r s env lock).1
  unfolding restart_consumers
  restart_consumers-none s env lock i =
      let (ds, e) = served.workloads s deployment i in
      let (es, f) = served.workloads s daemon_set i in
      let (fs, g) = served.workloads s stateful_set i in
      rw (restart_consumers, e, f, g) (roll-none s (target_of env) (lock_digest r lock) ds es fs i)

  mark_realizing-kept :
      (s : client.State) (env : FloxEnv) → I s → Its req spec env → I (mark_realizing r s env).1
  unfolding mark_realizing
  mark_realizing-kept s env i its = (served.patched s env _ i its).2

  module _ (quiet : IsQuiet client) (lawful : IsLawful conditions) where
    -- The reconcile ends, needs no other, and the environment that is stored is realised and Ready,
    -- with the specification that it had.
    abbrev pub Done : Outcome client.State → Type 0
    Done o =
        (o.error ≡ none)
        × (o.result ≡ no_requeue)
        × (env : FloxEnv) × (client.get_env o.state req.namespace req.name ≡ ok env)
        × (already_realized r.node_name env ≡ true)
        × (conditions.is_true "Ready" env.status.conditions ≡ true)
        × (env.spec ≡ spec)

    record_realized-Done :
        (s : client.State) (env : FloxEnv) (res : RealizeResult) (relock : String)
        → I s
        → Its req spec env
        → get env.annotations relock_annotation ≡ relock
        → Done (record_realized r s env res relock)
    unfolding record_realized realized_env
    record_realized-Done s env res relock i its token =
        let sent : FloxEnv = realized_env r env res relock in
        let (stored, accepted, i') = served.patched s env sent i its in
        let s' : client.State = (client.patch_env_status s env sent).1 in
        rw (record_realized, accepted)
          (
            refl,
            refl,
            sent,
            rw (← its.0, ← its.1) (quiet.stored-patch s env sent stored accepted).1,
            rw already_realized-realized_env (rw token (eq_self relock)),
            is_true-set conditions lawful _ env.status.conditions refl refl,
            its.2,
          )

    deliver-Done :
        (s : client.State) (env : FloxEnv) (res : RealizeResult) (previous relock : String)
        → I s
        → Its req spec env
        → get env.annotations relock_annotation ≡ relock
        → Done (deliver r s env res previous relock)
    unfolding deliver
    deliver-Done s env res previous relock i its token =
        elim (Bool-cases (not (res.lock == "") && not (res.lock == previous))) [
          | inr same ↦ rw (deliver, same) (record_realized-Done s env res relock i its token)
          | inl changed ↦
              let rolled = restart_consumers-none s env res.lock i in
              rw (deliver, changed)
                (rw rolled.0 (
                  record_realized-Done (restart_consumers r s env res.lock).1 env res relock
                    rolled.1 its token))
        ]

    realise-Done :
        (s : client.State) (env : FloxEnv) (toml : String)
        → I s
        → Its req spec env
        → Done (realise r s env toml)
    unfolding realise
    realise-Done s env toml i its =
        let marked : FloxEnv = (mark_realizing r s env).0 in
        let e = mark_realizing-eq r quiet lawful req s env in
        let request : RealizeRequest = record {
          ref = record { folder = folder_of env; name = marked.name };
          manifest_toml = toml;
          lock = lock_of env;
          consumption = consumption_of env;
        } in
        let i' = mark_realizing-kept s env i its in
        let ran = r.realize (mark_realizing r s env).1 (timeout_of r) request in
        let (res, good, i'') =
          served.realizes (mark_realizing r s env).1 (timeout_of r) request i' in
        rw (realise, good)
          (deliver-Done ran.1 marked res env.status.lock _ i''
            (
              ap (λ x. x.namespace) e ∙ its.0,
              ap (λ x. x.name) e ∙ its.1,
              ap (λ x. x.spec) e ∙ its.2,
            )
            (ap (λ x. get x.annotations relock_annotation) e))

    pub take_slot-Done :
        (s : client.State) (env : FloxEnv) (toml : String)
        → I s
        → Its req spec env
        → Done (take_slot r s env toml)
    unfolding take_slot
    take_slot-Done s env toml i its =
        let slot = served.free_slot s i in
        rw (take_slot, slot.0) (realise-Done (r.wait_slot s).1 env toml slot.1 its)
