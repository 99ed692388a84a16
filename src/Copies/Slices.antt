-- ===== src/Copies/Slices.antt =====
-- What the generated code does at a slice, a pointer and a map, whatever their elements are.
use flox_controller.Prelude.{ℕ, String, Option, none, some, List, [], ◌∷◌, string_eq, ◌≡◌}
use flox_controller.Prelude.Dict.{Dict, insert}
use flox_controller.Copies.Heap.{Heap, Kind, Slice, contents, alloc, write}

-- A copy of a value, given its elements' memory: the new value and the memory then.
abbrev pub Copy : Type 0 → Type 0 → Type 0
Copy C X = X → Heap C → X × Heap C

-- `*out = *in`
abbrev pub plain : {C X : Type 0} → Copy C X
plain x h = (x, h)

-- The slice that shows what a pointer refers to.
abbrev pub pointee : ℕ → Slice
pointee p = record { array = p; len = 1 }

module _ {C X : Type 0} where
  -- `for i := range *in { (*in)[i].DeepCopyInto(&(*out)[i]) }`: the copies, for `*out`.
  unfoldable pub copy_each : Copy C X → Copy C (List X)
  copy_each f [] h = ([], h)
  copy_each f (x ∷ xs) h = let (y, h') = f x h in let (ys, h'') = copy_each f xs h' in (y ∷ ys, h'')

  -- `*out = make([]T, len(*in))` and the loop. The array is made before its elements are copied, and
  -- holds them once they are.
  unfoldable pub copy_array : Kind C X → Copy C X → Copy C Slice
  copy_array k f s h =
      let (ys, h') = copy_each f (contents k h s) (alloc (k.array []) h) in
      (record { array = h.next; len = s.len }, write h.next (k.array ys) h')

  -- The same under `if in.X != nil`.
  unfoldable pub copy_slice : Kind C X → Copy C X → Copy C (Option Slice)
  copy_slice k f none h = (none, h)
  copy_slice k f (some s) h = let (t, h') = copy_array k f s h in (some t, h')

  -- `if in.X != nil { *out = new(T); (*in).DeepCopyInto(*out) }`
  unfoldable pub copy_pointer : Kind C X → Copy C X → Copy C (Option ℕ)
  copy_pointer k f none h = (none, h)
  copy_pointer k f (some p) h = let (t, h') = copy_array k f (pointee p) h in (some t.array, h')

-- The cells that are maps of strings.
pub record MapKind (C : Type 0) : Type 0 where
  pub table : Dict String String → C
  pub entries : C → Dict String String
  pub entries-table : (d : Dict String String) → entries (table d) ≡ d

-- `for key, val := range *in { (*out)[key] = val }`
unfoldable pub copy_entries : Dict String String → Dict String String → Dict String String
copy_entries [] out = out
copy_entries ((key, val) ∷ d) out = copy_entries d (insert key val out)

-- `if in.X != nil { *out = make(map[string]string, len(*in)); … }`
unfoldable pub copy_map : {C : Type 0} → MapKind C → Copy C (Option ℕ)
copy_map k none h = (none, h)
copy_map k (some p) h = (some h.next, alloc (k.table (copy_entries (k.entries (h.cell p)) [])) h)
