-- ===== src/EnvController/Relock.antt =====
-- A relock is honoured once for an environment, by the first node that realises it.
use flox_controller.Prelude.{
  ℕ, String, ◌<>◌, true, false, ok, none, List, [], ◌∷◌, ◌==◌, string_eq, nat_eq, if◌then◌else◌,
  ◌≡◌, ◌≢◌, refl, arith, eq_self,
}
use flox_controller.Prelude.Dict.{get}
use flox_controller.Api.{FloxEnv, NodeRealization, Condition}
use flox_controller.Client.{NamespacedName, finish}
use flox_controller.Conditions.{IsLawful}
use flox_controller.EnvController.Types.{Reconciler, RealizeResult}
use flox_controller.EnvController.Status.{
  relock_annotation, realized_here, already_realized, upsert_realization, realized_env,
}
use flox_controller.EnvController.Reconcile.{reconcile_env, reconcile}
use flox_controller.EnvController.Settling.{find-set_ready}

-- The realisation of a node says nothing about another.
realized_here-upsert_realization-other :
    (node : String) (nr : NodeRealization) (generation : ℕ) (realized : List NodeRealization)
    → node ≢ nr.node
    → realized_here node generation (upsert_realization nr realized)
      ≡ realized_here node generation realized
unfolding realized_here upsert_realization
realized_here-upsert_realization-other node nr generation [] differ = ground arith
realized_here-upsert_realization-other node nr generation (old ∷ realized) differ =
    ground (arith, realized_here-upsert_realization-other node nr generation realized)

-- The condition that a realise sets.
abbrev the_ready : Reconciler → FloxEnv → RealizeResult → Condition
the_ready r env res = record {
  type = "Ready";
  status = "True";
  reason = "Realized";
  message = "realized on " <> (r.node_name <> (" at " <> res.store_path));
  observed_generation = env.meta.generation;
}

already_realized-other :
    (r : Reconciler) (node : String) (env : FloxEnv) (res : RealizeResult) (relock : String)
    → node ≢ r.node_name
    → already_realized node (realized_env r env res relock) ≡ (
        if get env.annotations relock_annotation == relock
        then realized_here node env.generation env.status.realized
        else false)
unfolding already_realized realized_env
already_realized-other r node env res relock differ = ground (
  arith,
  realized_here-upsert_realization-other node
      (record {
        node = r.node_name;
        ready = true;
        store_path = res.store_path;
        env_path = res.env_path;
        gcroot_path = res.gcroot_path;
        observed_generation = env.meta.generation;
      })
      env.meta.generation env.status.realized differ,
)

-- A relock is pending, on a node too that has realised the current generation before. Once another
-- node has recorded its realise of the relock, the first one counts as realised, and its reconcile
-- does nothing: it keeps the old lock. The condition functions are such as IsLawful says.
pub reconcile-relocked_elsewhere :
    (r : Reconciler) (lawful : IsLawful r.conditions) (node : String) (s : r.client.State)
    (req : NamespacedName) (env : FloxEnv) (res : RealizeResult)
    → node ≢ r.node_name
    → get env.annotations relock_annotation ≢ env.status.relock_token
    → realized_here node env.generation env.status.realized ≡ true
    → r.client.get_env s req.namespace req.name
      ≡ ok (realized_env r env res (get env.annotations relock_annotation))
    → (already_realized node env ≡ false)
      × (reconcile (record r { node_name = node }) s req ≡ finish none s)
unfolding already_realized reconcile reconcile_env realized_env
reconcile-relocked_elsewhere r lawful node s req env res differ pending before found = (
  ground arith,
  let other : Reconciler = record r { node_name = node } in
      let after : FloxEnv = realized_env r env res (get env.annotations relock_annotation) in
      let done : already_realized node after ≡ true =
        rw (already_realized-other r node env res (get env.annotations relock_annotation) differ)
          (rw (eq_self (get env.annotations relock_annotation)) before) in
      rw (reconcile, found)
        (rw
          (
            reconcile_env,
            find-set_ready r.conditions lawful (the_ready r env res) env.status.conditions refl,
          )
          (rw done refl)),
)
