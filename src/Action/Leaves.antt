-- ===== src/Action/Leaves.antt =====
-- Actions that leave a part of the state as it is, however they end.
use flox_controller.Prelude.{String, Bool, true, false, Result, ok, err, ◌≡◌, refl, ◌∙◌}
use flox_controller.Action.{
  Action, Done, reads, in_context, ignoring_error, deferring, when, ◌>>=◌, continue, Ends,
  Ends-cases,
}

pub record Leaves {S V A : Type 0} (view : S → V) (m : Action S A) : Type 0 where
  pub at : (s : S) → view (m s).1 ≡ view s

module _ {S V A : Type 0} {view : S → V} where
  pub Leaves-reads : (f : S → Result A) → Leaves view (reads f)
  Leaves-reads f = record { at = λ s. refl }

  pub Leaves-in_context :
      (text : String) (m : Action S A) → Leaves view m → Leaves view (in_context text m)
  unfolding in_context
  Leaves-in_context text m h = record { at = λ s. h.at s }

  pub Leaves-ignoring_error : (m : Action S A) → Leaves view m → Leaves view (ignoring_error m)
  unfolding ignoring_error
  Leaves-ignoring_error m h = record { at = λ s. h.at s }

  pub Leaves-deferring :
      (cleanup : Action S Done) (m : Action S A)
      → Leaves view cleanup
      → Leaves view m
      → Leaves view (deferring cleanup m)
  unfolding deferring
  Leaves-deferring cleanup m hc hm = record { at = λ s. hc.at (m s).1 ∙ hm.at s }

  Leaves-continue :
      {B : Type 0} (r : Result A) (f : A → Action S B) (s : S)
      → ((a : A) → Leaves view (f a))
      → view (continue r f s).1 ≡ view s
  Leaves-continue (ok a) f s h = (h a).at s
  Leaves-continue (err e) f s h = refl

  pub Leaves-bind :
      {B : Type 0} (m : Action S A) (f : A → Action S B)
      → Leaves view m
      → ((a : A) → Leaves view (f a))
      → Leaves view (m >>= f)
  unfolding ◌>>=◌
  Leaves-bind m f hm hf = record { at = λ s. Leaves-continue (m s).0 f (m s).1 hf ∙ hm.at s }

  -- The outcome of such an action.
  pub Ends-Leaves :
      (m : Action S A) (s : S)
      → Leaves view m
      → Ends (λ a s'. (view s' ≡ view s) × ((m s).0 ≡ ok a)) (λ s'. view s' ≡ view s) (m s)
  Ends-Leaves m s h = Ends-cases (m s) (λ a e. (h.at s, e)) (λ x e. h.at s)

pub Leaves-when :
    {S V : Type 0} {view : S → V} (b : Bool) (m : Action S Done)
    → Leaves view m
    → Leaves view (when b m)
Leaves-when true m h = record { at = λ s. h.at s }
Leaves-when false m h = record { at = λ s. refl }

pub ruleset leaves_rules = (
  Leaves-reads, Leaves-in_context, Leaves-ignoring_error, Leaves-deferring, Leaves-bind,
  Leaves-when,
)
