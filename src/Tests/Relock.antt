-- ===== src/Tests/Relock.antt =====
-- A relock on two nodes, of which the first one records it.
use flox_controller.Prelude.{
  String, true, false, none, [], ◌∷◌, string_eq, ◌==◌, ◌≡◌, ◌≢◌, refl, ap,
}
use flox_controller.Prelude.Dict.{get}
use flox_controller.Api.{FloxEnv}
use flox_controller.Client.{finish}
use flox_controller.EnvController.Status.{relock_annotation, already_realized, realized_env}
use flox_controller.EnvController.Reconcile.{reconcile}
use flox_controller.EnvController.Relock.{reconcile-relocked_elsewhere}
use flox_controller.Tests.Memory.{listed-IsLawful}
use flox_controller.Tests.Gate.{env_with, realized_on_node}
use flox_controller.Tests.Environments.{reconciler, new_result, world_of, web_request}

-- Both nodes have realised it, and a relock is asked for.
abbrev relocking : FloxEnv
relocking =
    let env = env_with "web" (realized_on_node "n1" ∷ realized_on_node "n2" ∷ []) in
    record env { meta = record (env.meta) { annotations = (relock_annotation, "r1") ∷ [] } }

abbrev relocked_by_first : FloxEnv
relocked_by_first =
    realized_env reconciler relocking new_result (get relocking.annotations relock_annotation)

other_node : "n2" ≢ reconciler.node_name
unfolding string_eq
other_node e = let apart : true ≡ false = ap (λ (x : String). x == "n2") e in cc

relock_pending : get relocking.annotations relock_annotation ≢ relocking.status.relock_token
unfolding string_eq flox_controller.Prelude.Dict.lookup
relock_pending e = let apart : true ≡ false = ap (λ (x : String). x == "r1") e in cc

reconcile-relocked_elsewhere_example :
    (already_realized "n2" relocking ≡ false)
    × (reconcile
          (record reconciler { node_name = "n2" })
          (world_of relocked_by_first [])
          web_request
        ≡ finish none (world_of relocked_by_first []))
unfolding string_eq realized_env flox_controller.EnvController.Status.realized_here
    flox_controller.Prelude.nat_eq
reconcile-relocked_elsewhere_example =
    reconcile-relocked_elsewhere reconciler listed-IsLawful "n2" (world_of relocked_by_first [])
      web_request relocking new_result other_node relock_pending refl refl
