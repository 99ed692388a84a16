-- ===== src/Copies/Base.antt =====
-- internal/controller/floxenv_controller.go: the object before a change, `base := env.DeepCopy()`, is
-- left as it was by the change that `upsertRealization` makes in place.
use flox_controller.Prelude.{
  ℕ, String, ◌<◌, ◌≤◌, ◌≢◌, Option, none, some, List, [], ◌∷◌, ◌++◌, map, nat_eq, ◌≡◌, ◌∙◌, sym, ap,
  ap₂, refl, arith, Option-cases, inl, inr,
}
use flox_controller.Api.{NodeRealization, FloxEnvStatus, Condition}
use flox_controller.Prelude.Dict.{Dict}
use flox_controller.Copies.Heap.{
  Heap, Keeps, Before, Between, Slice, Kind, contents, cell-write, cell-alloc,
}
use flox_controller.Copies.Objects.{
  StatusObject, EnvObject, Cell, realizations, conditions, tables, realization_array, string_table,
  condition_array,
}
use flox_controller.Copies.Layouts.{flat, Owns-Grows}
use flox_controller.Copies.References.{slice_layout, map_layout}
use flox_controller.Copies.DeepCopy.{Library, copy_env}
use flox_controller.Copies.Resources.{status_of, status_layout, env_layout, IsLibrary}
use flox_controller.Copies.Deep.{copy_env-IsDeepCopy}
use flox_controller.Copies.Sharing.{Fits, upsert_in_place-shown}
use flox_controller.Copies.Upsert.{set_elem, append, node_index, shown, assign, upsert_in_place}
use flox_controller.EnvController.Status.{upsert_realization}

-- The array that a slice shows.
abbrev IsArrayOf : Option Slice → ℕ → Type 0
IsArrayOf none a = ⊥
IsArrayOf (some s) a = a ≡ s.array

module _ {C X : Type 0} (k : Kind C X) (x : X) (a : ℕ) (h : Heap C) where
  assign-Keeps : (i : ℕ) (o : Option Slice) → ¬ IsArrayOf o a → (assign k i x o h).cell a ≡ h.cell a
  unfolding assign
  assign-Keeps i none apart = refl
  assign-Keeps i (some s) apart =
      ground (arith, cell-write s.array a (k.array (set_elem i x (k.elements (h.cell s.array)))) h)

  append-Keeps :
      (spare : List X) (o : Option Slice)
      → a < h.next
      → ¬ IsArrayOf o a
      → (append k spare x o h).1.cell a ≡ h.cell a
  unfolding append
  append-Keeps spare none old apart = ground (arith, cell-alloc a (k.array (x ∷ spare)) h)
  append-Keeps spare (some s) old apart = ground (
    arith,
    cell-write s.array a (k.array (set_elem s.len x (k.elements (h.cell s.array)))) h,
    cell-alloc a (k.array (contents k h s ++ (x ∷ spare))) h,
  )

-- No other cell is changed.
upsert_in_place-Keeps :
    (spare : List NodeRealization) (nr : NodeRealization) (st : StatusObject) (h : Heap Cell)
    → Keeps (λ a. (a < h.next) × ¬ IsArrayOf st.realized a) h (upsert_in_place spare nr st h).1
unfolding upsert_in_place
upsert_in_place-Keeps spare nr st h a b =
    elim (Option-cases (node_index nr.node (shown realizations h st.realized))) [
      | inl missing ↦
          rw (upsert_in_place, missing) (append-Keeps realizations nr a h spare st.realized b.0 b.1)
      | inr (i, found) ↦
          rw (upsert_in_place, found) (assign-Keeps realizations nr a h i st.realized b.1)
    ]

Fits-Owns :
    (P : ℕ → Type 0) (h : Heap Cell) (o : Option Slice)
    → (slice_layout realizations flat).Owns P h o
    → Fits realizations h o
Fits-Owns P h none own = tt
Fits-Owns P h (some s) own = own.1.1

map_id : {A : Type 0} (xs : List A) → map (λ x. x) xs ≡ xs
map_id [] = refl
map_id (x ∷ xs) = ap (λ t. x ∷ t) (map_id xs)

view-shown :
    (h : Heap Cell) (o : Option Slice)
    → (slice_layout realizations flat).view h o ≡ shown realizations h o
view-shown h none = refl
view-shown h (some s) = map_id (contents realizations h s)

-- The array of the realisations is no map and no array of conditions.
realizations-table :
    (xs : List NodeRealization) (d : Dict String String) → realization_array xs ≢ string_table d
realizations-table xs d e = cc

realizations-conditions :
    (xs : List NodeRealization) (ys : List Condition) → realization_array xs ≢ condition_array ys
realizations-conditions xs ys e = cc

module _ (P : ℕ → Type 0) (h : Heap Cell) where
  resolved-apart :
      (r : Option Slice) (o : Option ℕ)
      → (slice_layout realizations flat).Owns P h r
      → (map_layout tables).Owns P h o
      → (map_layout tables).Owns (λ a. P a × ¬ IsArrayOf r a) h o
  resolved-apart r none own_r own = tt
  resolved-apart none (some p) own_r own = ((own.0, λ e. e), own.1, own.2)
  resolved-apart (some s) (some p) own_r own = (
    (own.0, λ e. realizations-table _ _ (own_r.1.0 ∙ ap h.cell (sym e) ∙ sym own.1)),
    own.1,
    own.2,
  )

  conditions-apart :
      (r o : Option Slice)
      → (slice_layout realizations flat).Owns P h r
      → (slice_layout conditions flat).Owns P h o
      → (slice_layout conditions flat).Owns (λ a. P a × ¬ IsArrayOf r a) h o
  conditions-apart r none own_r own = tt
  conditions-apart none (some t) own_r own = ((own.0, λ e. e), own.1, own.2)
  conditions-apart (some s) (some t) own_r own = (
    (own.0, λ e. realizations-conditions _ _ (own_r.1.0 ∙ ap h.cell (sym e) ∙ sym own.1.0)),
    own.1,
    own.2,
  )

upsert_in_place-status :
    (spare : List NodeRealization) (nr : NodeRealization) (st : StatusObject) (h : Heap Cell)
    → (upsert_in_place spare nr st h).0
      ≡ record st { realized = (upsert_in_place spare nr st h).0.realized }
unfolding upsert_in_place
upsert_in_place-status spare nr st h =
    elim (Option-cases (node_index nr.node (shown realizations h st.realized))) [
      | inl missing ↦ rw (upsert_in_place, missing) refl
      | inr (i, found) ↦ rw (upsert_in_place, found) refl
    ]

-- The status after the call is the one before with the realisation recorded.
pub upsert_in_place-view :
    (spare : List NodeRealization) (nr : NodeRealization) (st : StatusObject) (h : Heap Cell)
    → status_layout.Owns (Before h.next) h st
    → status_layout.view (upsert_in_place spare nr st h).1 (upsert_in_place spare nr st h).0
      ≡ record (status_layout.view h st) {
        realized = upsert_realization nr (status_layout.view h st).realized;
      }
upsert_in_place-view spare nr st h own =
    let st' : StatusObject = (upsert_in_place spare nr st h).0 in
    let k : Heap Cell = (upsert_in_place spare nr st h).1 in
    let keeps = upsert_in_place-Keeps spare nr st h in
    let apart : ℕ → Type 0 = λ a. (a < h.next) × ¬ IsArrayOf st.realized a in
    ap (status_layout.view k) (upsert_in_place-status spare nr st h)
    ∙ ap (status_of st) (
        ap₂ (λ v w. (v, w))
          ((map_layout tables).view-Keeps apart h k st.resolved keeps
            (resolved-apart (Before h.next) h st.realized st.resolved own.1.0 own.0))
          (ap₂ (λ v w. (v, w))
            (view-shown k st'.realized
              ∙ upsert_in_place-shown spare nr st h
                  (Fits-Owns (Before h.next) h st.realized own.1.0)
              ∙ ap (upsert_realization nr) (sym (view-shown h st.realized)))
            ((slice_layout conditions flat).view-Keeps apart h k st.conditions keeps
              (conditions-apart (Before h.next) h st.realized st.conditions own.1.0 own.1.1))))

-- The array of the status is no new cell.
array-allocated :
    (h : Heap Cell) (o : Option Slice) (a : ℕ)
    → (slice_layout realizations flat).Owns (Before h.next) h o
    → h.next ≤ a
    → ¬ IsArrayOf o a
array-allocated h none a own new = λ e. e
array-allocated h (some s) a own new = λ e. omega (arith, own.0, ap (λ (x : ℕ). x) e)

-- Where `base` is a deep copy of an environment, made before, and `upsertRealization` then changes
-- the environment in place, `base` still stands for the environment of before, and the status that
-- is left is that of before with the realisation recorded. The environment's cells have been
-- allocated, and the library's own deep copies are deep.
pub upsert_in_place-copy_env :
    (lib : Library) (lawful : IsLibrary lib) (h : Heap Cell) (env : EnvObject)
    → (env_layout lib).Owns (Before h.next) h env
    → (spare : List NodeRealization) (nr : NodeRealization)
    → ((env_layout lib).view
          (upsert_in_place spare nr env.status (copy_env lib env h).1).1
          (copy_env lib env h).0
        ≡ (env_layout lib).view h env)
      × (status_layout.view
            (upsert_in_place spare nr env.status (copy_env lib env h).1).1
            (upsert_in_place spare nr env.status (copy_env lib env h).1).0
          ≡ record (((env_layout lib).view h env).status) {
            realized = upsert_realization nr ((env_layout lib).view h env).status.realized;
          })
upsert_in_place-copy_env lib lawful h env own spare nr =
    let c = copy_env-IsDeepCopy lib lawful h env own in
    let g : Heap Cell = (copy_env lib env h).1 in
    let base : EnvObject = (copy_env lib env h).0 in
    let k : Heap Cell = (upsert_in_place spare nr env.status g).1 in
    let status = Owns-Grows status_layout h g env.status c.grows own.1.1 in
    let keeps : Keeps (Between h.next g.next) g k = λ a b.
      upsert_in_place-Keeps spare nr env.status g a
        (b.1, array-allocated h env.status.realized a own.1.1.1.0 b.0) in
    (
      (env_layout lib).view-Keeps (Between h.next g.next) g k base keeps c.fresh ∙ c.same,
      upsert_in_place-view spare nr env.status g status.0
          ∙ ap {A = FloxEnvStatus} {B = FloxEnvStatus}
              (λ st. record st { realized = upsert_realization nr st.realized }) status.1,
    )
