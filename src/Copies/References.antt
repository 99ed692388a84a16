-- ===== src/Copies/References.antt =====
-- The copies of slices, pointers and maps are deep.
use flox_controller.Prelude.{
  ℕ, String, Option, none, some, List, [], ◌∷◌, ◌++◌, ◌≡◌, ◌∙◌, sym, ap, refl, arith, nat_eq,
  string_eq, eq_self,
}
use mathlib.Core.List.{append-nil, append_assoc}
use flox_controller.Prelude.Dict.{Dict, lookup, insert, lookup-insert}
use flox_controller.Copies.Heap.{
  Heap, Keeps, Slice, Kind, cell-alloc, next-alloc, Grows-refl, Grows-alloc,
}
use flox_controller.Copies.Slices.{
  Copy, copy_array, copy_slice, copy_pointer, pointee, MapKind, copy_entries, copy_map,
}
use flox_controller.Copies.Layouts.{Layout, IsDeepCopy}
use flox_controller.Copies.Arrays.{array_layout, copy_array-IsDeepCopy}

module _ {C X V : Type 0} (k : Kind C X) (l : Layout C X V) where
  abbrev slice_view : Heap C → Option Slice → List V
  slice_view h none = []
  slice_view h (some s) = (array_layout k l).view h s

  abbrev SliceOwns : (ℕ → Type 0) → Heap C → Option Slice → Type 0
  SliceOwns P h none = Unit
  SliceOwns P h (some s) = (array_layout k l).Owns P h s

  pub SliceOwns-Keeps :
      (P : ℕ → Type 0) (h g : Heap C) (o : Option Slice)
      → Keeps P h g
      → SliceOwns P h o
      → SliceOwns P g o
  SliceOwns-Keeps P h g none keeps own = tt
  SliceOwns-Keeps P h g (some s) keeps own = (array_layout k l).Owns-Keeps P h g s keeps own

  pub slice_view-Keeps :
      (P : ℕ → Type 0) (h g : Heap C) (o : Option Slice)
      → Keeps P h g
      → SliceOwns P h o
      → slice_view g o ≡ slice_view h o
  slice_view-Keeps P h g none keeps own = refl
  slice_view-Keeps P h g (some s) keeps own = (array_layout k l).view-Keeps P h g s keeps own

  pub SliceOwns-mono :
      (P Q : ℕ → Type 0) (h : Heap C) (o : Option Slice)
      → ((a : ℕ) → P a → Q a)
      → SliceOwns P h o
      → SliceOwns Q h o
  SliceOwns-mono P Q h none sub own = tt
  SliceOwns-mono P Q h (some s) sub own = (array_layout k l).Owns-mono P Q h s sub own

  -- A slice, which may be nil.
  abbrev pub slice_layout : Layout C (Option Slice) (List V)
  slice_layout = record {
    view = slice_view;
    Owns = SliceOwns;
    Owns-Keeps = SliceOwns-Keeps;
    view-Keeps = slice_view-Keeps;
    Owns-mono = SliceOwns-mono;
  }

  abbrev as_slice : Option ℕ → Option Slice
  as_slice none = none
  as_slice (some p) = some (pointee p)

  abbrev first : {A : Type 0} → List A → Option A
  first [] = none
  first (a ∷ xs) = some a

  -- A pointer, which may be nil.
  abbrev pub pointer_layout : Layout C (Option ℕ) (Option V)
  pointer_layout = record {
    view = λ h o. first (slice_view h (as_slice o));
    Owns = λ P h o. SliceOwns P h (as_slice o);
    Owns-Keeps = λ P h g o keeps own. SliceOwns-Keeps P h g (as_slice o) keeps own;
    view-Keeps = λ P h g o keeps own. ap first (slice_view-Keeps P h g (as_slice o) keeps own);
    Owns-mono = λ P Q h o sub own. SliceOwns-mono P Q h (as_slice o) sub own;
  }

  module _ (f : Copy C X) (deep : IsDeepCopy l f) where
    pub copy_slice-IsDeepCopy : IsDeepCopy slice_layout (copy_slice k f)
    unfolding copy_slice
    copy_slice-IsDeepCopy h none own = record { grows = Grows-refl h; fresh = tt; same = refl }
    copy_slice-IsDeepCopy h (some s) own =
        let c = copy_array-IsDeepCopy k l f deep h s own in
        record { grows = c.grows; fresh = c.fresh; same = c.same }

    pub copy_pointer-IsDeepCopy : IsDeepCopy pointer_layout (copy_pointer k f)
    unfolding copy_pointer copy_array
    copy_pointer-IsDeepCopy h none own = record { grows = Grows-refl h; fresh = tt; same = refl }
    copy_pointer-IsDeepCopy h (some p) own =
        let c = copy_array-IsDeepCopy k l f deep h (pointee p) own in
        record { grows = c.grows; fresh = c.fresh; same = ap first c.same }

-- A Go map has one entry for each key.
abbrev pub NodupKeys : Dict String String → Type 0
NodupKeys [] = Unit
NodupKeys ((key, val) ∷ d) = (lookup key d ≡ none) × NodupKeys d

-- The entries of `d` are not in `out`.
abbrev Disjoint : Dict String String → Dict String String → Type 0
Disjoint [] out = Unit
Disjoint ((key, val) ∷ d) out = (lookup key out ≡ none) × Disjoint d out

insert-missing :
    (key val : String) (out : Dict String String)
    → lookup key out ≡ none
    → insert key val out ≡ out ++ ((key, val) ∷ [])
unfolding insert lookup
insert-missing key val [] missing = refl
insert-missing key val ((j, w) ∷ out) missing = ground (arith, insert-missing key val out)

-- An entry of another key is added.
Disjoint-insert :
    (key val : String) (d out : Dict String String)
    → lookup key d ≡ none
    → Disjoint d out
    → Disjoint d (insert key val out)
unfolding lookup
Disjoint-insert key val [] out missing apart = tt
Disjoint-insert key val ((j, w) ∷ d) out missing apart =
    ground (arith, lookup-insert j key val out, Disjoint-insert key val d out)

copy_entries-append :
    (d out : Dict String String) → NodupKeys d → Disjoint d out → copy_entries d out ≡ out ++ d
unfolding copy_entries
copy_entries-append [] out nodup apart = sym (append-nil out)
copy_entries-append ((key, val) ∷ d) out nodup apart =
    copy_entries-append d (insert key val out) nodup.1
      (Disjoint-insert key val d out nodup.0 apart.1)
    ∙ ap (λ t. t ++ d) (insert-missing key val out apart.0)
    ∙ append_assoc out ((key, val) ∷ []) d

Disjoint-nil : (d : Dict String String) → Disjoint d []
unfolding lookup
Disjoint-nil [] = tt
Disjoint-nil ((key, val) ∷ d) = (refl, Disjoint-nil d)

module _ {C : Type 0} (k : MapKind C) where
  abbrev map_view : Heap C → Option ℕ → Dict String String
  map_view h none = []
  map_view h (some p) = k.entries (h.cell p)

  abbrev MapOwns : (ℕ → Type 0) → Heap C → Option ℕ → Type 0
  MapOwns P h none = Unit
  MapOwns P h (some p) =
      P p × (k.table (k.entries (h.cell p)) ≡ h.cell p) × NodupKeys (k.entries (h.cell p))

  pub MapOwns-Keeps :
      (P : ℕ → Type 0) (h g : Heap C) (o : Option ℕ) → Keeps P h g → MapOwns P h o → MapOwns P g o
  MapOwns-Keeps P h g none keeps own = tt
  MapOwns-Keeps P h g (some p) keeps own = rw (keeps p own.0) own

  pub map_view-Keeps :
      (P : ℕ → Type 0) (h g : Heap C) (o : Option ℕ)
      → Keeps P h g
      → MapOwns P h o
      → map_view g o ≡ map_view h o
  map_view-Keeps P h g none keeps own = refl
  map_view-Keeps P h g (some p) keeps own = ap k.entries (keeps p own.0)

  pub MapOwns-mono :
      (P Q : ℕ → Type 0) (h : Heap C) (o : Option ℕ)
      → ((a : ℕ) → P a → Q a)
      → MapOwns P h o
      → MapOwns Q h o
  MapOwns-mono P Q h none sub own = tt
  MapOwns-mono P Q h (some p) sub own = (sub p own.0, own.1, own.2)

  -- A map, which may be nil.
  abbrev pub map_layout : Layout C (Option ℕ) (Dict String String)
  map_layout = record {
    view = map_view;
    Owns = MapOwns;
    Owns-Keeps = MapOwns-Keeps;
    view-Keeps = map_view-Keeps;
    Owns-mono = MapOwns-mono;
  }

  pub copy_map-IsDeepCopy : IsDeepCopy map_layout (copy_map k)
  unfolding copy_map
  copy_map-IsDeepCopy h none own = record { grows = Grows-refl h; fresh = tt; same = refl }
  copy_map-IsDeepCopy h (some p) own =
      let d = k.entries (h.cell p) in
      let copied = copy_entries-append d [] own.2 (Disjoint-nil d) in
      let held = (cell-alloc h.next (k.table (copy_entries d [])) h) in
      record {
        grows = Grows-alloc (k.table (copy_entries d [])) h;
        fresh = (
          (omega arith, omega (arith, next-alloc (k.table (copy_entries d [])) h)),
          rw (held, eq_self h.next, k.entries-table (copy_entries d [])) refl,
          rw (held, eq_self h.next, k.entries-table (copy_entries d []), copied) own.2,
        );
        same = rw (held, eq_self h.next, k.entries-table (copy_entries d [])) copied;
      }
