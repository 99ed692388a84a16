-- ===== src/EnvController/Slots.antt =====
-- internal/controller/floxenv_controller.go: the slots of a node, which its workers share. The channel
-- is the number of values in it.
use flox_controller.Prelude.{
  ℕ, zero, suc, ◌+◌, ◌≤◌, ◌<◌, List, [], ◌∷◌, ◌==◌, nat_eq, if◌then◌else◌, ◌≡◌, refl, ◌∙◌, ap, sym,
  arith,
}

abbrev pub default_realize_slots : ℕ
default_realize_slots = 2

-- The capacity of the channel that `slot` makes.
unfoldable pub slots_of : ℕ → ℕ
slots_of realize_slots = if realize_slots == 0 then default_realize_slots else realize_slots

-- A worker's reconcile before its wait for a slot and after its return, in the wait, and with a slot.
pub data Phase : Type 0 where
  outside queued holding : Phase

-- All workers outside.
abbrev pub idle : ℕ → List Phase
idle zero = []
idle (suc workers) = outside ∷ idle workers

-- The number of workers that hold a slot.
abbrev pub running : List Phase → ℕ
running [] = 0
running (holding ∷ ps) = suc (running ps)
running (outside ∷ ps) = running ps
running (queued ∷ ps) = running ps

-- What one worker does, with the values in the channel before and after: it comes to the `select`,
-- its send succeeds, its context ends in the wait, or it returns, whatever the outcome, and its
-- deferred receive gives the slot back.
pub data Turn (capacity : ℕ) : ℕ → Phase → ℕ → Phase → Type 0 where
  arrive : {sent : ℕ} → Turn capacity sent outside sent queued
  send : {sent : ℕ} → sent < capacity → Turn capacity sent queued (suc sent) holding
  cancelled : {sent : ℕ} → Turn capacity sent queued sent outside
  leave : {sent : ℕ} → Turn capacity (suc sent) holding sent outside

-- A turn of one of the workers.
pub data Step (capacity : ℕ) : ℕ → List Phase → ℕ → List Phase → Type 0 where
  first :
      {sent after : ℕ} {p q : Phase} {ps : List Phase}
      → Turn capacity sent p after q
      → Step capacity sent (p ∷ ps) after (q ∷ ps)
  later :
      {sent after : ℕ} {p : Phase} {ps qs : List Phase}
      → Step capacity sent ps after qs
      → Step capacity sent (p ∷ ps) after (p ∷ qs)

-- The workers' turns in any order, from an empty channel with every worker outside.
pub data Reach (capacity : ℕ) : ℕ → List Phase → Type 0 where
  start : {ps : List Phase} → (workers : ℕ) → ps ≡ idle workers → Reach capacity 0 ps
  next :
      {sent after : ℕ} {ps qs : List Phase}
      → Reach capacity sent ps
      → Step capacity sent ps after qs
      → Reach capacity after qs

running-idle : (workers : ℕ) → running (idle workers) ≡ 0
running-idle zero = refl
running-idle (suc workers) = running-idle workers

-- A turn adds to the channel what it adds to the workers that hold a slot.
Step-running :
    {capacity sent after : ℕ} {ps qs : List Phase}
    → Step capacity sent ps after qs
    → after + running ps ≡ sent + running qs
Step-running (first arrive) = refl
Step-running (first (send h)) = omega arith
Step-running (first cancelled) = refl
Step-running (first leave) = omega arith
Step-running (later {p = outside} step) = Step-running step
Step-running (later {p = queued} step) = Step-running step
Step-running (later {p = holding} step) = let e = Step-running step in omega arith

Step-capacity :
    {capacity sent after : ℕ} {ps qs : List Phase}
    → Step capacity sent ps after qs
    → sent ≤ capacity
    → after ≤ capacity
Step-capacity (first arrive) h = h
Step-capacity (first (send free)) h = omega arith
Step-capacity (first cancelled) h = h
Step-capacity (first leave) h = omega arith
Step-capacity (later step) h = Step-capacity step h

-- In any order of the workers' turns, the channel holds one value for each worker that has a slot,
-- so that none is lost, and no more workers have one than there are slots.
pub Reach-running :
    {capacity sent : ℕ} {ps : List Phase}
    → Reach capacity sent ps
    → (sent ≡ running ps) × (running ps ≤ capacity)
Reach-running {ps = ps} (start workers e) =
    let none_runs : running ps ≡ 0 = ap running e ∙ running-idle workers in
    (sym none_runs, omega arith)
Reach-running (next r step) =
    let (sent_is, bound) = Reach-running r in
    let moved = Step-running step in
    let fits = Step-capacity step (omega arith) in (omega arith, omega arith)
