-- ===== src/Copies/Separation.antt =====
-- What is written to an object after a deep copy does not reach the copy, nor the other way round.
use flox_controller.Prelude.{Option, ◌≡◌, ◌∙◌}
use flox_controller.Api.{FloxEnv, FloxCatalog}
use flox_controller.Copies.Heap.{Heap, Keeps, Before, Between}
use flox_controller.Copies.Slices.{Copy}
use flox_controller.Copies.Layouts.{Layout, IsDeepCopy}
use flox_controller.Copies.References.{pointer_layout, copy_pointer-IsDeepCopy}
use flox_controller.Copies.Objects.{Cell, envs, catalogs}
use flox_controller.Copies.DeepCopy.{
  Library, Pointer, copy_env, copy_catalog, deep_copy_env, deep_copy_catalog,
}
use flox_controller.Copies.Resources.{env_layout, catalog_layout, IsLibrary}
use flox_controller.Copies.Deep.{copy_env-IsDeepCopy, copy_catalog-IsDeepCopy}

-- In `k` the cells of the copy are as they were made, and in `j` those of before the copy.
separate :
    {C X V : Type 0} (l : Layout C X V) (f : Copy C X) (deep : IsDeepCopy l f) (h : Heap C) (x : X)
    → l.Owns (Before h.next) h x
    → (k j : Heap C) → Keeps (Between h.next (f x h).1.next) (f x h).1 k
    → Keeps (Before h.next) (f x h).1 j
    → (l.view k (f x h).0 ≡ l.view h x) × (l.view j x ≡ l.view h x)
separate l f deep h x own k j kept others =
    let c = deep h x own in
    (
      l.view-Keeps (Between h.next (f x h).1.next) (f x h).1 k (f x h).0 kept c.fresh ∙ c.same,
      l.view-Keeps (Before h.next) h j x (λ a b. others a b ∙ c.grows.1 a b) own,
    )

abbrev pub its_env : Library → Heap Cell → Pointer → Option FloxEnv
its_env lib = (pointer_layout envs (env_layout lib)).view

abbrev its_catalog : Heap Cell → Pointer → Option FloxCatalog
its_catalog = (pointer_layout catalogs catalog_layout).view

module _ (lib : Library) (lawful : IsLibrary lib) (h : Heap Cell) (k j : Heap Cell) where
  -- After `DeepCopy` of an environment, whatever is written to cells that the copy did not allocate,
  -- the copy stands for the environment as it was; and whatever is written to cells that were not
  -- allocated before, the original does. The original's cells have been allocated, and the
  -- library's own deep copies are deep.
  pub deep_copy_env-separate :
      (env : Pointer)
      → (pointer_layout envs (env_layout lib)).Owns (Before h.next) h env
      → Keeps (Between h.next (deep_copy_env lib env h).1.next) (deep_copy_env lib env h).1 k
      → Keeps (Before h.next) (deep_copy_env lib env h).1 j
      → (its_env lib k (deep_copy_env lib env h).0 ≡ its_env lib h env)
        × (its_env lib j env ≡ its_env lib h env)
  unfolding deep_copy_env
  deep_copy_env-separate env own kept others =
      separate (pointer_layout envs (env_layout lib)) (deep_copy_env lib)
        (copy_pointer-IsDeepCopy envs (env_layout lib) (copy_env lib)
          (copy_env-IsDeepCopy lib lawful))
        h env own k j kept others

  -- The same of `DeepCopy` of a catalog.
  deep_copy_catalog-separate :
      (catalog : Pointer)
      → (pointer_layout catalogs catalog_layout).Owns (Before h.next) h catalog
      → Keeps
          (Between h.next (deep_copy_catalog lib catalog h).1.next)
          (deep_copy_catalog lib catalog h).1
          k
      → Keeps (Before h.next) (deep_copy_catalog lib catalog h).1 j
      → (its_catalog k (deep_copy_catalog lib catalog h).0 ≡ its_catalog h catalog)
        × (its_catalog j catalog ≡ its_catalog h catalog)
  unfolding deep_copy_catalog
  deep_copy_catalog-separate catalog own kept others =
      separate (pointer_layout catalogs catalog_layout) (deep_copy_catalog lib)
        (copy_pointer-IsDeepCopy catalogs catalog_layout (copy_catalog lib)
          (copy_catalog-IsDeepCopy lib lawful))
        h catalog own k j kept others
