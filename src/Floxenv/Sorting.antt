-- ===== src/Floxenv/Sorting.antt =====
-- The order of references, and lists that are sorted by it.
use flox_controller.Prelude.{
  true, false, ◌||◌, List, [], ◌∷◌, ◌==◌, string_eq, contains, ◌≡◌, refl, ap₂, ◌∙◌, arith, ◌⊎◌, inl,
  inr, All, Bool-cases,
}
use flox_controller.Prelude.Order.{str_ltb_irrefl, str_ltb_trans, str_ltb_total}
use flox_controller.Floxenv.{EnvRef, ref_eq, ref_ltb, insert_ref, sort_refs}

contains-insert_ref :
    (x : EnvRef) (xs : List EnvRef) (r : EnvRef)
    → contains (insert_ref x xs) r ≡ (r == x || contains xs r)
unfolding insert_ref
contains-insert_ref x [] r = refl
contains-insert_ref x (y ∷ xs) r = ground (arith, contains-insert_ref x xs r)

pub contains-sort_refs : (xs : List EnvRef) (r : EnvRef) → contains (sort_refs xs) r ≡ contains xs r
unfolding sort_refs
contains-sort_refs [] r = refl
contains-sort_refs (x ∷ xs) r = rw (contains-insert_ref x (sort_refs xs) r, contains-sort_refs xs r)

ref_ltb_irrefl : (a : EnvRef) → ref_ltb a a ≡ false
unfolding ref_ltb
ref_ltb_irrefl a = ground (arith, str_ltb_irrefl a.folder, str_ltb_irrefl a.name)

ref_ltb_trans : (a b c : EnvRef) → ref_ltb a b ≡ true → ref_ltb b c ≡ true → ref_ltb a c ≡ true
unfolding ref_ltb
ref_ltb_trans a b c h k = ground (
  arith,
  str_ltb_trans a.folder b.folder c.folder,
  str_ltb_trans a.name b.name c.name,
  str_ltb_trans a.folder b.folder a.folder,
  str_ltb_irrefl a.folder,
)

ref_ltb_total : (a b : EnvRef) → (ref_ltb a b ≡ true) ⊎ (a ≡ b) ⊎ (ref_ltb b a ≡ true)
unfolding ref_ltb
ref_ltb_total a b = ground (arith, str_ltb_total a.folder b.folder, str_ltb_total a.name b.name)

-- Every reference is before all that follow it; so none is listed twice.
abbrev pub IsSorted : List EnvRef → Type 0
IsSorted [] = Unit
IsSorted (x ∷ xs) = All (λ y. ref_ltb x y ≡ true) xs × IsSorted xs

abbrev pub IsDistinct : List EnvRef → Type 0
IsDistinct [] = Unit
IsDistinct (x ∷ xs) = (contains xs x ≡ false) × IsDistinct xs

All-above :
    (a b : EnvRef) (xs : List EnvRef)
    → ref_ltb a b ≡ true
    → All (λ y. ref_ltb b y ≡ true) xs
    → All (λ y. ref_ltb a y ≡ true) xs
All-above a b [] h k = tt
All-above a b (x ∷ xs) h k = (ref_ltb_trans a b x h k.0, All-above a b xs h k.1)

All-insert_ref :
    (a x : EnvRef) (xs : List EnvRef)
    → ref_ltb a x ≡ true
    → All (λ y. ref_ltb a y ≡ true) xs
    → All (λ y. ref_ltb a y ≡ true) (insert_ref x xs)
unfolding insert_ref
All-insert_ref a x [] h k = (h, tt)
All-insert_ref a x (y ∷ xs) h k = ground (arith, All-insert_ref a x xs h k.1)

insert_ref-IsSorted :
    (x : EnvRef) (xs : List EnvRef)
    → contains xs x ≡ false
    → IsSorted xs
    → IsSorted (insert_ref x xs)
unfolding insert_ref
insert_ref-IsSorted x [] h s = (tt, tt)
insert_ref-IsSorted x (y ∷ xs) h s = elim (Bool-cases (ref_ltb x y)) [
  | inl lt ↦ rw lt ((lt, All-above x y xs lt s.0), s)
  | inr ge ↦ ground (arith, ref_ltb_total x y, insert_ref-IsSorted x xs, All-insert_ref y x xs)
]

pub sort_refs-IsSorted : (xs : List EnvRef) → IsDistinct xs → IsSorted (sort_refs xs)
unfolding sort_refs
sort_refs-IsSorted [] d = tt
sort_refs-IsSorted (x ∷ xs) d =
    insert_ref-IsSorted x (sort_refs xs) (contains-sort_refs xs x ∙ d.0) (sort_refs-IsSorted xs d.1)

not-contains-above :
    (a : EnvRef) (xs : List EnvRef) → All (λ y. ref_ltb a y ≡ true) xs → contains xs a ≡ false
not-contains-above a [] h = refl
not-contains-above a (x ∷ xs) h = ground (arith, not-contains-above a xs h.1, ref_ltb_irrefl a)

ltb-of-contains :
    (a x : EnvRef) (xs : List EnvRef)
    → All (λ y. ref_ltb a y ≡ true) xs
    → contains xs x ≡ true
    → ref_ltb a x ≡ true
ltb-of-contains a x [] h m = cc
ltb-of-contains a x (y ∷ xs) h m = ground (arith, ltb-of-contains a x xs h.1)

-- A strictly ordered list is determined by what it contains.
pub IsSorted-ext :
    (xs ys : List EnvRef)
    → IsSorted xs
    → IsSorted ys
    → ((r : EnvRef) → contains xs r ≡ contains ys r)
    → xs ≡ ys
IsSorted-ext [] [] s t e = refl
IsSorted-ext [] (y ∷ ys) s t e = ground (arith, e y)
IsSorted-ext (x ∷ xs) [] s t e = ground (arith, e x)
IsSorted-ext (x ∷ xs) (y ∷ ys) s t e = ap₂ ◌∷◌ heads (IsSorted-ext xs ys s.1 t.1 tails)
  where
    heads : x ≡ y
    heads = ground (
      arith,
      e x,
      e y,
      ltb-of-contains x y xs s.0,
      ltb-of-contains y x ys t.0,
      ref_ltb_trans x y x,
      ref_ltb_irrefl x,
    )

    tails : (r : EnvRef) → contains xs r ≡ contains ys r
    tails r = ground (arith, e r, heads, not-contains-above x xs s.0, not-contains-above y ys t.0)
