-- ===== src/Copies/Upsert.antt =====
-- internal/controller/floxenv_controller.go: `upsertRealization` as it runs, on the array behind
-- `st.Realized`.
use flox_controller.Prelude.{
  ℕ, zero, suc, String, Option, none, some, List, [], ◌∷◌, ◌++◌, ◌==◌, string_eq, if◌then◌else◌,
  length, ltb,
}
use flox_controller.Api.{NodeRealization}
use flox_controller.Copies.Heap.{Heap, Slice, Kind, contents, alloc, write}
use flox_controller.Copies.Objects.{StatusObject, Cell, realizations}

-- `xs[i] = x`
abbrev pub set_elem {ℓ} : {A : Type ℓ} → ℕ → A → List A → List A
set_elem i x [] = []
set_elem zero x (y ∷ ys) = x ∷ ys
set_elem (suc i) x (y ∷ ys) = y ∷ set_elem i x ys

-- Go's `append` of one element: in the array, where it has spare capacity, which slices of the same
-- array then share, and else in a new array, to which the runtime gives spare elements.
unfoldable pub append :
    {C X : Type 0} → Kind C X → List X → X → Option Slice → Heap C → Slice × Heap C
append k spare x none h = (record { array = h.next; len = 1 }, alloc (k.array (x ∷ spare)) h)
append k spare x (some s) h =
    let xs = k.elements (h.cell s.array) in
    if ltb s.len (length xs)
    then (
      record { array = s.array; len = suc s.len },
      write s.array (k.array (set_elem s.len x xs)) h,
    )
    else (
      record { array = h.next; len = suc s.len },
      alloc (k.array (contents k h s ++ (x ∷ spare))) h,
    )

-- The `i` at which the loop finds the node.
unfoldable pub node_index : String → List NodeRealization → Option ℕ
node_index node [] = none
node_index node (nr ∷ rest) =
    let found = node_index node rest in
    if nr.node == node then some 0 else elim found [ none ↦ none | some i ↦ some (suc i) ]

-- The elements of a slice, none of nil.
abbrev pub shown : {C X : Type 0} → Kind C X → Heap C → Option Slice → List X
shown k h none = []
shown k h (some s) = contents k h s

-- `st.Realized[i] = nr`
unfoldable pub assign : {C X : Type 0} → Kind C X → ℕ → X → Option Slice → Heap C → Heap C
assign k i x none h = h
assign k i x (some s) h = write s.array (k.array (set_elem i x (k.elements (h.cell s.array)))) h

-- The status as it stands after the call, and the memory. `spare` is what `append` may add.
unfoldable pub upsert_in_place :
    List NodeRealization → NodeRealization → StatusObject → Heap Cell → StatusObject × Heap Cell
unfolding assign append node_index
upsert_in_place spare nr st h = elim (node_index nr.node (shown realizations h st.realized)) [
  | some i ↦ (st, assign realizations i nr st.realized h)
  | none ↦
      let (s, h') = append realizations spare nr st.realized h in
      (record st { realized = some s }, h')
]
