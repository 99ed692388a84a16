-- ===== src/Copies/Structs.antt =====
-- The copy of a struct is deep, if those of its fields are, which it copies one after the other.
use flox_controller.Prelude.{◌≡◌, ◌∙◌, ap, ap₂, subst, sym}
use flox_controller.Copies.Heap.{Heap, Between}
use flox_controller.Copies.Slices.{Copy}
use flox_controller.Copies.Layouts.{Layout, IsDeepCopy, Owns-Grows, IsCopy-later, IsCopy-earlier}

-- Two fields are copied one after the other.
abbrev pub copy_both : {C X Y : Type 0} → Copy C X → Copy C Y → Copy C (X × Y)
copy_both f g p h = let (x, h1) = f p.0 h in let (y, h2) = g p.1 h1 in ((x, y), h2)

module _ {C X Y V W : Type 0} (l : Layout C X V) (m : Layout C Y W) where
  -- Two fields.
  abbrev pub both : Layout C (X × Y) (V × W)
  both = record {
    view = λ h p. (l.view h p.0, m.view h p.1);
    Owns = λ P h p. l.Owns P h p.0 × m.Owns P h p.1;
    Owns-Keeps = λ P h g p keeps own.
        (l.Owns-Keeps P h g p.0 keeps own.0, m.Owns-Keeps P h g p.1 keeps own.1);
    view-Keeps = λ P h g p keeps own.
        ap₂ (λ v w. (v, w)) (l.view-Keeps P h g p.0 keeps own.0)
          (m.view-Keeps P h g p.1 keeps own.1);
    Owns-mono =
        λ P Q h p sub own. (l.Owns-mono P Q h p.0 sub own.0, m.Owns-mono P Q h p.1 sub own.1);
  }

  pub copy_both-IsDeepCopy :
      (f : Copy C X) (g : Copy C Y)
      → IsDeepCopy l f
      → IsDeepCopy m g
      → IsDeepCopy both (copy_both f g)
  copy_both-IsDeepCopy f g deep_f deep_g h p own =
      let c = deep_f h p.0 own.0 in
      let x = (f p.0 h).0 in
      let h1 : Heap C = (f p.0 h).1 in
      let d = deep_g h1 p.1 (Owns-Grows m h h1 p.1 c.grows own.1).0 in
      let y = (g p.1 h1).0 in
      let h2 : Heap C = (g p.1 h1).1 in
      let c' = IsCopy-later l h h1 h2 p.0 x c d.grows in
      let d' = IsCopy-earlier m h h1 h2 p.1 y c.grows own.1 d in
      record {
        grows = c'.grows;
        fresh = (c'.fresh, d'.fresh);
        same = ap₂ (λ v w. (v, w)) c'.same d'.same;
      }

module _ {C X Y V W : Type 0} (l : Layout C Y V) (fields : X → Y) (build : X → V → W) where
  -- A struct whose references are in the fields `fields`.
  abbrev pub struct : Layout C X W
  struct = record {
    view = λ h x. build x (l.view h (fields x));
    Owns = λ P h x. l.Owns P h (fields x);
    Owns-Keeps = λ P h g x keeps own. l.Owns-Keeps P h g (fields x) keeps own;
    view-Keeps = λ P h g x keeps own. ap (build x) (l.view-Keeps P h g (fields x) keeps own);
    Owns-mono = λ P Q h x sub own. l.Owns-mono P Q h (fields x) sub own;
  }

  -- `*out = *in`, then `out` gets the copies of those fields.
  pub struct-IsDeepCopy :
      (f : Copy C Y) (set : X → Y → X)
      → ((x : X) (y : Y) → fields (set x y) ≡ y)
      → ((x : X) (y : Y) (v : V) → build (set x y) v ≡ build x v)
      → IsDeepCopy l f
      → IsDeepCopy struct (λ x h. (set x (f (fields x) h).0, (f (fields x) h).1))
  struct-IsDeepCopy f set got kept deep h x own =
      let c = deep h (fields x) own in
      let y = (f (fields x) h).0 in
      let g : Heap C = (f (fields x) h).1 in
      record {
        grows = c.grows;
        fresh = subst (λ z. l.Owns (Between h.next g.next) g z) (sym (got x y)) c.fresh;
        same =
            kept x y (l.view g (fields (set x y)))
            ∙ ap (λ z. build x (l.view g z)) (got x y)
            ∙ ap (build x) c.same;
      }
