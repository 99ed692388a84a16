-- ===== src/Copies/Arrays.antt =====
-- The copies of arrays are deep, if those of their elements are.
use flox_controller.Prelude.{
  ℕ, suc, ◌≤◌, List, [], ◌∷◌, map, ◌≡◌, ◌∙◌, sym, ap, ap₂, subst, refl, arith, length, All, nat_eq,
  eq_self,
}
use flox_controller.Copies.Heap.{
  Heap, Keeps, Between, alloc, write, Slice, Kind, contents, take, take-length, length-take,
  length-take_of_le, cell-write, next-write, next-alloc, Grows-refl, Grows-trans, Grows-alloc,
  Grows-write,
}
use flox_controller.Copies.Slices.{Copy, copy_each, copy_array}
use flox_controller.Copies.Layouts.{Layout, IsDeepCopy, Owns-Grows, IsCopy-later, IsCopy-earlier}

module _ {C X V : Type 0} (l : Layout C X V) where
  pub AllOwn-Keeps :
      (P : ℕ → Type 0) (h g : Heap C) (xs : List X)
      → Keeps P h g
      → All (l.Owns P h) xs
      → All (l.Owns P g) xs
  AllOwn-Keeps P h g [] keeps own = tt
  AllOwn-Keeps P h g (x ∷ xs) keeps own =
      (l.Owns-Keeps P h g x keeps own.0, AllOwn-Keeps P h g xs keeps own.1)

  pub AllOwn-mono :
      (P Q : ℕ → Type 0) (h : Heap C) (xs : List X)
      → ((a : ℕ) → P a → Q a)
      → All (l.Owns P h) xs
      → All (l.Owns Q h) xs
  AllOwn-mono P Q h [] sub own = tt
  AllOwn-mono P Q h (x ∷ xs) sub own =
      (l.Owns-mono P Q h x sub own.0, AllOwn-mono P Q h xs sub own.1)

  pub views-Keeps :
      (P : ℕ → Type 0) (h g : Heap C) (xs : List X)
      → Keeps P h g
      → All (l.Owns P h) xs
      → map (l.view g) xs ≡ map (l.view h) xs
  views-Keeps P h g [] keeps own = refl
  views-Keeps P h g (x ∷ xs) keeps own =
      ap₂ (λ v vs. v ∷ vs) (l.view-Keeps P h g x keeps own.0) (views-Keeps P h g xs keeps own.1)

  -- A list of values.
  abbrev pub each : Layout C (List X) (List V)
  each = record {
    view = λ h xs. map (l.view h) xs;
    Owns = λ P h xs. All (l.Owns P h) xs;
    Owns-Keeps = AllOwn-Keeps;
    view-Keeps = views-Keeps;
    Owns-mono = AllOwn-mono;
  }

module _ {C X V : Type 0} (l : Layout C X V) (f : Copy C X) (deep : IsDeepCopy l f) where
  copy_each-IsDeepCopy : IsDeepCopy (each l) (copy_each f)
  unfolding copy_each
  copy_each-IsDeepCopy h [] own = record { grows = Grows-refl h; fresh = tt; same = refl }
  copy_each-IsDeepCopy h (x ∷ xs) own =
      let h' : Heap C = (f x h).1 in
      let k : Heap C = (copy_each f xs h').1 in
      let c = deep h x own.0 in
      let cs = copy_each-IsDeepCopy h' xs (Owns-Grows (each l) h h' xs c.grows own.1).0 in
      let first = IsCopy-later l h h' k x (f x h).0 c cs.grows in
      let others = IsCopy-earlier (each l) h h' k xs (copy_each f xs h').0 c.grows own.1 cs in
      record {
        grows = first.grows;
        fresh = (first.fresh, others.fresh);
        same = ap₂ (λ v vs. v ∷ vs) first.same others.same;
      }

  length-copy_each : (xs : List X) (h : Heap C) → length (copy_each f xs h).0 ≡ length xs
  unfolding copy_each
  length-copy_each [] h = refl
  length-copy_each (x ∷ xs) h = ap (λ n. suc n) (length-copy_each xs (f x h).1)

module _ {C X V : Type 0} (k : Kind C X) (l : Layout C X V) where
  -- The cell is an array of the kind, with that many elements at least.
  abbrev pub IsArray : ℕ → C → Type 0
  IsArray n c = (k.array (k.elements c) ≡ c) × (n ≤ length (k.elements c))

  pub array_layout-Owns-Keeps :
      (P : ℕ → Type 0) (h g : Heap C) (s : Slice)
      → Keeps P h g
      → P s.array × IsArray s.len (h.cell s.array) × All (l.Owns P h) (contents k h s)
      → P s.array × IsArray s.len (g.cell s.array) × All (l.Owns P g) (contents k g s)
  array_layout-Owns-Keeps P h g s keeps own =
      rw (keeps s.array own.0) (own.0, own.1, AllOwn-Keeps l P h g (contents k h s) keeps own.2)

  -- A slice.
  abbrev pub array_layout : Layout C Slice (List V)
  array_layout = record {
    view = λ h s. map (l.view h) (contents k h s);
    Owns = λ P h s. P s.array × IsArray s.len (h.cell s.array) × All (l.Owns P h) (contents k h s);
    Owns-Keeps = array_layout-Owns-Keeps;
    view-Keeps = λ P h g s keeps own.
        ap (λ c. map (l.view g) (take s.len (k.elements c))) (keeps s.array own.0)
        ∙ views-Keeps l P h g (contents k h s) keeps own.2;
    Owns-mono = λ P Q h s sub own.
        (sub s.array own.0, own.1, AllOwn-mono l P Q h (contents k h s) sub own.2);
  }

module _ {C X V : Type 0} (k : Kind C X) (l : Layout C X V) (f : Copy C X)
    (deep : IsDeepCopy l f) where
  contents-write :
      (p : ℕ) (g : Heap C) (n : ℕ) (ys : List X)
      → length ys ≤ n
      → contents k (write p (k.array ys) g) (record { array = p; len = n }) ≡ ys
  contents-write p g n ys le =
      rw (cell-write p p (k.array ys) g, eq_self p, k.elements-array ys) (take-length n ys le)

  pub copy_array-IsDeepCopy : IsDeepCopy (array_layout k l) (copy_array k f)
  unfolding copy_array
  copy_array-IsDeepCopy h s own =
      let xs = contents k h s in
      let h1 : Heap C = alloc (k.array []) h in
      let made = Grows-alloc (k.array []) h in
      let before = Owns-Grows (each l) h h1 xs made own.2 in
      let ys = (copy_each f xs h1).0 in
      let h2 : Heap C = (copy_each f xs h1).1 in
      let cs = copy_each-IsDeepCopy l f deep h1 xs before.0 in
      let h3 : Heap C = write h.next (k.array ys) h2 in
      let shown = contents-write h.next h2 s.len ys (
        omega (
          arith,
          length-copy_each l f deep xs h1,
          length-take s.len (k.elements (h.cell s.array)),
        )) in
      let keeps : Keeps (Between h1.next h2.next) h2 h3 =
        λ a b. ground (arith, cell-write h.next a (k.array ys) h2, next-alloc (k.array []) h) in
      record {
        grows =
            Grows-write h.next (k.array ys) h h2 (Grows-trans h h1 h2 made cs.grows) (omega arith);
        fresh = (
          (
            omega arith,
            omega (
              arith,
              next-write h.next (k.array ys) h2,
              cs.grows.0,
              made.0,
              next-alloc (k.array []) h,
            ),
          ),
          rw (cell-write h.next h.next (k.array ys) h2, eq_self h.next, k.elements-array ys)
              (
                refl,
                omega (
                  arith,
                  length-copy_each l f deep xs h1,
                  length-take_of_le s.len (k.elements (h.cell s.array)) own.1.1,
                ),
              ),
          subst (λ zs. All (l.Owns (Between h.next h3.next) h3) zs) (sym shown)
              (AllOwn-mono l (Between h1.next h2.next) (Between h.next h3.next) h3 ys
                (λ a b. (
                  omega (arith, b.0, made.0),
                  omega (arith, b.1, next-write h.next (k.array ys) h2),
                ))
                (AllOwn-Keeps l (Between h1.next h2.next) h2 h3 ys keeps cs.fresh)),
        );
        same =
            ap (λ zs. map (l.view h3) zs) shown
            ∙ views-Keeps l (Between h1.next h2.next) h2 h3 ys keeps cs.fresh
            ∙ cs.same
            ∙ before.1;
      }
