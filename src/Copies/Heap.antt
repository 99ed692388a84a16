-- ===== src/Copies/Heap.antt =====
-- Go's memory, as far as the resources use it: cells at addresses, which a new one never reuses. A
-- cell is the array behind a slice, or a map. A pointer is to the only element of an array.
use flox_controller.Prelude.{
  ℕ, zero, suc, ◌≤◌, ◌<◌, List, [], ◌∷◌, ◌==◌, nat_eq, if◌then◌else◌, ◌≡◌, ◌∙◌, ap, refl, arith,
  length,
}

-- The cells at addresses from `next` on are still to be allocated.
pub record Heap (C : Type 0) : Type 0 where
  pub next : ℕ
  pub cell : ℕ → C

-- The cells of `g` at some addresses are as they were in `h`.
abbrev pub Keeps : {C : Type 0} → (ℕ → Type 0) → Heap C → Heap C → Type 0
Keeps P h g = (a : ℕ) → P a → g.cell a ≡ h.cell a

abbrev pub Before : ℕ → ℕ → Type 0
Before n a = a < n

abbrev pub Between : ℕ → ℕ → ℕ → Type 0
Between m n a = (m ≤ a) × (a < n)

-- Between the two, cells were only added.
abbrev pub Grows : {C : Type 0} → Heap C → Heap C → Type 0
Grows h g = (h.next ≤ g.next) × Keeps (Before h.next) h g

module _ {C : Type 0} where
  unfoldable pub write : ℕ → C → Heap C → Heap C
  write p c h = record h { cell = λ a. if a == p then c else h.cell a }

  -- A new cell, at `h.next`.
  unfoldable pub alloc : C → Heap C → Heap C
  unfolding write
  alloc c h = write h.next c (record h { next = suc h.next })

  pub cell-write :
      (p a : ℕ) (c : C) (h : Heap C) → (write p c h).cell a ≡ (if a == p then c else h.cell a)
  unfolding write
  cell-write p a c h = refl

  pub next-write : (p : ℕ) (c : C) (h : Heap C) → (write p c h).next ≡ h.next
  unfolding write
  next-write p c h = refl

  pub cell-alloc :
      (a : ℕ) (c : C) (h : Heap C) → (alloc c h).cell a ≡ (if a == h.next then c else h.cell a)
  unfolding alloc
  cell-alloc a c h = refl

  pub next-alloc : (c : C) (h : Heap C) → (alloc c h).next ≡ suc h.next
  unfolding alloc
  next-alloc c h = refl

  pub Grows-refl : (h : Heap C) → Grows h h
  Grows-refl h = (omega arith, λ a lt. refl)

  pub Grows-trans : (h g k : Heap C) → Grows h g → Grows g k → Grows h k
  Grows-trans h g k hg gk =
      (omega (arith, hg.0, gk.0), λ a lt. gk.1 a (omega (arith, hg.0, lt)) ∙ hg.1 a lt)

  pub Grows-alloc : (c : C) (h : Heap C) → Grows h (alloc c h)
  Grows-alloc c h = (omega (arith, next-alloc c h), λ a lt. ground (arith, cell-alloc a c h))

  -- A cell of the new ones is written.
  pub Grows-write : (p : ℕ) (c : C) (h g : Heap C) → Grows h g → h.next ≤ p → Grows h (write p c g)
  Grows-write p c h g grows old = (
    omega (arith, next-write p c g, grows.0),
    λ a lt. ground (arith, cell-write p a c g, grows.1 a lt),
  )

-- A slice is an array and how many of its elements it shows. The array's other elements are its
-- spare capacity.
pub record Slice : Type 0 where
  pub array : ℕ
  pub len : ℕ

-- The cells that are arrays of some type: `elements` of another cell is empty.
pub record Kind (C X : Type 0) : Type 0 where
  pub array : List X → C
  pub elements : C → List X
  pub elements-array : (xs : List X) → elements (array xs) ≡ xs

abbrev pub take {ℓ} : {A : Type ℓ} → ℕ → List A → List A
take zero xs = []
take (suc n) [] = []
take (suc n) (x ∷ xs) = x ∷ take n xs

pub take-length {ℓ} : {A : Type ℓ} (n : ℕ) (xs : List A) → length xs ≤ n → take n xs ≡ xs
take-length zero [] h = refl
take-length zero (x ∷ xs) h = absurd (omega arith)
take-length (suc n) [] h = refl
take-length (suc n) (x ∷ xs) h = ap (λ t. x ∷ t) (take-length n xs (omega arith))

pub length-take {ℓ} : {A : Type ℓ} (n : ℕ) (xs : List A) → length (take n xs) ≤ n
length-take zero xs = omega arith
length-take (suc n) [] = omega arith
length-take (suc n) (x ∷ xs) = omega (arith, length-take n xs)

pub length-take_of_le {ℓ} :
    {A : Type ℓ} (n : ℕ) (xs : List A) → n ≤ length xs → length (take n xs) ≡ n
length-take_of_le zero xs h = refl
length-take_of_le (suc n) [] h = absurd (omega arith)
length-take_of_le (suc n) (x ∷ xs) h = ap (λ m. suc m) (length-take_of_le n xs (omega arith))

module _ {C X : Type 0} (k : Kind C X) where
  -- The elements that a slice shows.
  abbrev pub contents : Heap C → Slice → List X
  contents h s = take s.len (k.elements (h.cell s.array))
