-- ===== src/Tests/Slots.antt =====
-- Three workers and two slots.
use flox_controller.Prelude.{◌≤◌, [], ◌∷◌, nat_eq, ◌≡◌, refl, arith}
use flox_controller.EnvController.Slots.{
  queued, holding, arrive, send, first, later, Reach, start, next, running, Reach-running,
}

-- The first two workers take the slots while the third one queues.
both_taken : Reach 2 2 (holding ∷ holding ∷ queued ∷ [])
both_taken =
    next
      (next
        (next (next (next (start 3 refl) (first arrive)) (later (first arrive)))
          (later (later (first arrive))))
        (first (send (omega arith))))
      (later (first (send (omega arith))))

Reach-running_example :
    (2 ≡ running (holding ∷ holding ∷ queued ∷ []))
    × (running (holding ∷ holding ∷ queued ∷ []) ≤ 2)
Reach-running_example = Reach-running both_taken
