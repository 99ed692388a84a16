-- ===== src/Copies/Layouts.antt =====
-- What a value on the heap stands for, and the cells that it has. A deep copy stands for the same,
-- on cells of its own.
use flox_controller.Prelude.{ℕ, ◌≡◌, ◌∙◌, refl, arith}
use flox_controller.Copies.Heap.{Heap, Keeps, Before, Between, Grows, Grows-refl, Grows-trans}
use flox_controller.Copies.Slices.{Copy, plain}

-- `view` is the value with all that it refers to. `Owns P h x` says that every cell that `x` refers
-- to has an address of `P`.
pub record Layout (C X V : Type 0) : Type 1 where
  pub view : Heap C → X → V
  pub Owns : (ℕ → Type 0) → Heap C → X → Type 0
  pub Owns-Keeps : (P : ℕ → Type 0) (h g : Heap C) (x : X) → Keeps P h g → Owns P h x → Owns P g x
  pub view-Keeps :
      (P : ℕ → Type 0) (h g : Heap C) (x : X) → Keeps P h g → Owns P h x → view g x ≡ view h x
  pub Owns-mono :
      (P Q : ℕ → Type 0) (h : Heap C) (x : X) → ((a : ℕ) → P a → Q a) → Owns P h x → Owns Q h x

-- A value without references.
abbrev pub flat : {C X : Type 0} → Layout C X X
flat = record {
  view = λ h x. x;
  Owns = λ P h x. Unit;
  Owns-Keeps = λ P h g x keeps own. tt;
  view-Keeps = λ P h g x keeps own. refl;
  Owns-mono = λ P Q h x sub own. tt;
}

-- `y` in `g` is a deep copy of `x` in `h`: only cells were added, the copy has only such, and stands
-- for the same.
pub record IsCopy {C X V : Type 0} (l : Layout C X V) (h : Heap C) (x : X) (g : Heap C) (y : X)
    : Type 0 where
  pub grows : Grows h g
  pub fresh : l.Owns (Between h.next g.next) g y
  pub same : l.view g y ≡ l.view h x

-- The function makes a deep copy of each value whose cells have been allocated.
abbrev pub IsDeepCopy : {C X V : Type 0} → Layout C X V → Copy C X → Type 0
IsDeepCopy {C} {X} l f =
    (h : Heap C) (x : X) → l.Owns (Before h.next) h x → IsCopy l h x (f x h).1 (f x h).0

module _ {C X V : Type 0} (l : Layout C X V) where
  -- What was allocated before stays, when cells are added.
  pub Owns-Grows :
      (h g : Heap C) (x : X)
      → Grows h g
      → l.Owns (Before h.next) h x
      → l.Owns (Before g.next) g x × (l.view g x ≡ l.view h x)
  Owns-Grows h g x grows own = (
    l.Owns-mono (Before h.next) (Before g.next) g x (λ a lt. omega (arith, lt, grows.0))
        (l.Owns-Keeps (Before h.next) h g x grows.1 own),
    l.view-Keeps (Before h.next) h g x grows.1 own,
  )

  -- A copy is one still when more cells are added.
  pub IsCopy-later : (h g k : Heap C) (x y : X) → IsCopy l h x g y → Grows g k → IsCopy l h x k y
  IsCopy-later h g k x y c grows =
      let keeps : Keeps (Between h.next g.next) g k = λ a b. grows.1 a b.1 in
      record {
        grows = Grows-trans h g k c.grows grows;
        fresh =
            l.Owns-mono (Between h.next g.next) (Between h.next k.next) k y
              (λ a b. (b.0, omega (arith, b.1, grows.0)))
              (l.Owns-Keeps (Between h.next g.next) g k y keeps c.fresh);
        same = l.view-Keeps (Between h.next g.next) g k y keeps c.fresh ∙ c.same;
      }

  -- It is one of what the value was before other cells were added.
  pub IsCopy-earlier :
      (h g k : Heap C) (x y : X)
      → Grows h g
      → l.Owns (Before h.next) h x
      → IsCopy l g x k y
      → IsCopy l h x k y
  IsCopy-earlier h g k x y grows own c = record {
    grows = Grows-trans h g k grows c.grows;
    fresh =
        l.Owns-mono (Between g.next k.next) (Between h.next k.next) k y
          (λ a b. (omega (arith, grows.0, b.0), b.1)) c.fresh;
    same = c.same ∙ (Owns-Grows h g x grows own).1;
  }

pub IsDeepCopy-flat : {C X : Type 0} → IsDeepCopy {C = C} {X = X} flat plain
IsDeepCopy-flat h x own = record { grows = Grows-refl h; fresh = tt; same = refl }
