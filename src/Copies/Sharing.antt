-- ===== src/Copies/Sharing.antt =====
-- `upsertRealization` on the heap is the function on lists, and leaves a deep copy as it was.
use flox_controller.Prelude.{
  ℕ, zero, suc, ◌<◌, ◌≤◌, Option, none, some, List, [], ◌∷◌, ◌++◌, nat_eq, string_eq, ◌≡◌, ◌∙◌, ap,
  refl, arith, length, ltb, eq_self, Option-cases, Bool-cases, inl, inr,
}
use flox_controller.Api.{NodeRealization}
use flox_controller.Copies.Heap.{
  Heap, Slice, Kind, contents, take, length-take_of_le, cell-write, cell-alloc,
}
use flox_controller.Copies.Objects.{StatusObject, Cell, realizations}
use flox_controller.Copies.Upsert.{set_elem, append, node_index, shown, assign, upsert_in_place}
use flox_controller.EnvController.Status.{upsert_realization}

take-set_elem {ℓ} :
    {A : Type ℓ} (n i : ℕ) (x : A) (xs : List A)
    → take n (set_elem i x xs) ≡ set_elem i x (take n xs)
take-set_elem zero i x xs = refl
take-set_elem (suc n) i x [] = refl
take-set_elem (suc n) zero x (y ∷ ys) = refl
take-set_elem (suc n) (suc i) x (y ∷ ys) = ap (λ t. y ∷ t) (take-set_elem n i x ys)

take-suc-set_elem {ℓ} :
    {A : Type ℓ} (n : ℕ) (x : A) (xs : List A)
    → n < length xs
    → take (suc n) (set_elem n x xs) ≡ take n xs ++ (x ∷ [])
take-suc-set_elem n x [] lt = absurd (omega arith)
take-suc-set_elem zero x (y ∷ ys) lt = refl
take-suc-set_elem (suc n) x (y ∷ ys) lt = ap (λ t. y ∷ t) (take-suc-set_elem n x ys (omega arith))

take-suc-append {ℓ} :
    {A : Type ℓ} (n : ℕ) (x : A) (xs spare : List A)
    → length xs ≡ n
    → take (suc n) (xs ++ (x ∷ spare)) ≡ xs ++ (x ∷ [])
take-suc-append zero x [] spare e = refl
take-suc-append (suc n) x [] spare e = absurd (omega arith)
take-suc-append zero x (y ∷ ys) spare e = absurd (omega arith)
take-suc-append (suc n) x (y ∷ ys) spare e =
    ap (λ t. y ∷ t) (take-suc-append n x ys spare (omega arith))

-- Where the loop finds the node, its realisation is replaced there.
set_elem-upsert_realization :
    (nr : NodeRealization) (i : ℕ) (l : List NodeRealization)
    → node_index nr.node l ≡ some i
    → set_elem i nr l ≡ upsert_realization nr l
unfolding node_index upsert_realization
set_elem-upsert_realization nr i [] e = cc
set_elem-upsert_realization nr zero (old ∷ l) e = ground arith
set_elem-upsert_realization nr (suc i) (old ∷ l) e =
    ground (arith, set_elem-upsert_realization nr i l)

-- Where it does not, one is added at the end.
append-upsert_realization :
    (nr : NodeRealization) (l : List NodeRealization)
    → node_index nr.node l ≡ none
    → l ++ (nr ∷ []) ≡ upsert_realization nr l
unfolding node_index upsert_realization
append-upsert_realization nr [] e = refl
append-upsert_realization nr (old ∷ l) e = ground (arith, append-upsert_realization nr l)

module _ {C X : Type 0} (k : Kind C X) where
  -- A slice of an array that is long enough.
  abbrev pub Fits : Heap C → Option Slice → Type 0
  Fits h none = Unit
  Fits h (some s) = s.len ≤ length (k.elements (h.cell s.array))

  shown-assign :
      (i : ℕ) (x : X) (o : Option Slice) (h : Heap C)
      → shown k (assign k i x o h) o ≡ set_elem i x (shown k h o)
  unfolding assign
  shown-assign i x none h = refl
  shown-assign i x (some s) h =
      let xs = k.elements (h.cell s.array) in
      rw
        (
          cell-write s.array s.array (k.array (set_elem i x xs)) h,
          eq_self s.array,
          k.elements-array (set_elem i x xs),
        )
        (take-set_elem s.len i x xs)

  shown-append :
      (spare : List X) (x : X) (o : Option Slice) (h : Heap C)
      → Fits h o
      → shown k (append k spare x o h).1 (some (append k spare x o h).0) ≡ shown k h o ++ (x ∷ [])
  unfolding append
  shown-append spare x none h fits =
      rw (cell-alloc h.next (k.array (x ∷ spare)) h, eq_self h.next, k.elements-array (x ∷ spare))
        refl
  shown-append spare x (some s) h fits =
      let xs = k.elements (h.cell s.array) in
      let ys = contents k h s ++ (x ∷ spare) in
      elim (Bool-cases (ltb s.len (length xs))) [
        | inl room ↦
            rw (append, room)
              (rw
                (
                  cell-write s.array s.array (k.array (set_elem s.len x xs)) h,
                  eq_self s.array,
                  k.elements-array (set_elem s.len x xs),
                )
                (take-suc-set_elem s.len x xs (ground arith)))
        | inr full ↦
            rw (append, full)
              (rw (cell-alloc h.next (k.array ys) h, eq_self h.next, k.elements-array ys)
                (take-suc-append s.len x (contents k h s) spare (length-take_of_le s.len xs fits)))
      ]

-- The elements of the slice that the call leaves.
pub upsert_in_place-shown :
    (spare : List NodeRealization) (nr : NodeRealization) (st : StatusObject) (h : Heap Cell)
    → Fits realizations h st.realized
    → shown realizations
        (upsert_in_place spare nr st h).1
        (upsert_in_place spare nr st h).0.realized
      ≡ upsert_realization nr (shown realizations h st.realized)
unfolding upsert_in_place
upsert_in_place-shown spare nr st h fits =
    let l = shown realizations h st.realized in
    elim (Option-cases (node_index nr.node l)) [
      | inl missing ↦
          rw (upsert_in_place, missing)
            (shown-append realizations spare nr st.realized h fits
              ∙ append-upsert_realization nr l missing)
      | inr (i, found) ↦
          rw (upsert_in_place, found)
            (shown-assign realizations i nr st.realized h
              ∙ set_elem-upsert_realization nr i l found)
    ]
