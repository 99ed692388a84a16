-- ===== src/Action/Sure.antt =====
-- Actions that succeed, whatever the state is.
use flox_controller.Prelude.{String, Bool, true, false, Result, ok, err, ◌≡◌, refl}
use flox_controller.Action.{
  Action, Done, pure, in_context, ignoring_error, deferring, when, ◌>>=◌, Ends, Ends-cases,
  Ends-value, reads,
}

pub record Sure {S A : Type 0} (m : Action S A) : Type 0 where
  pub at : (s : S) → (a : A) × ((m s).0 ≡ ok a)

-- The action succeeds, with an outcome of which `P` holds.
abbrev pub Returns : {S A : Type 0} → (A → S → Type 0) → Result A × S → Type 0
Returns P o = Ends P (λ _. ⊥) o

module _ {S A : Type 0} where
  pub Sure-pure : (a : A) → Sure (pure {S = S} a)
  Sure-pure a = record { at = λ s. (a, refl) }

  wrapped_ok :
      (text : String) (m : Action S A) (s : S) (a : A)
      → (m s).0 ≡ ok a
      → (in_context text m s).0 ≡ ok a
  unfolding in_context
  wrapped_ok text m s a e = rw (in_context, e) refl

  pub Sure-in_context : (text : String) (m : Action S A) → Sure m → Sure (in_context text m)
  Sure-in_context text m h = record {
    at = λ s. ((h.at s).0, wrapped_ok text m s (h.at s).0 (h.at s).1);
  }

  pub Sure-ignoring_error : (m : Action S A) → Sure (ignoring_error m)
  unfolding ignoring_error
  Sure-ignoring_error m = record { at = λ s. (tt, refl) }

  pub Sure-deferring :
      (cleanup : Action S Done) (m : Action S A) → Sure m → Sure (deferring cleanup m)
  unfolding deferring
  Sure-deferring cleanup m h = record { at = λ s. ((h.at s).0, (h.at s).1) }

  pub Sure-bind :
      {B : Type 0} (m : Action S A) (f : A → Action S B)
      → Sure m
      → ((a : A) → Sure (f a))
      → Sure (m >>= f)
  unfolding ◌>>=◌
  Sure-bind m f hm hf = record {
    at = λ s. let (a, e) = hm.at s in let (b, g) = (hf a).at (m s).1 in (b, rw e g);
  }

  -- A sure action has an outcome of which everything holds that holds where it succeeds.
  pub Returns-Sure :
      {P : A → S → Type 0} (m : Action S A) (s : S)
      → Sure m
      → ((a : A) → (m s).0 ≡ ok a → P a (m s).1)
      → Returns P (m s)
  Returns-Sure m s h p =
      Ends-cases (m s) p
        (λ e bad. let (a, good) = h.at s in let clash : ok a ≡ err e = cc (good, bad) in cc)

  -- What holds of the outcome of a success holds where there is one.
  pub Returns-Ends :
      {P : A → S → Type 0} {E : S → Type 0} {o : Result A × S}
      → Ends P E o
      → (a : A) × (o.0 ≡ ok a)
      → Returns P o
  Returns-Ends {o = o} h (a, good) =
      Ends-cases o (λ b e. Ends-value b h e)
        (λ e bad. let clash : ok a ≡ err e = cc (good, bad) in cc)

  pub Sure-reads : (f : S → A) → Sure (reads (λ s. ok (f s)))
  Sure-reads f = record { at = λ s. (f s, refl) }

  -- The value of an outcome that is returned.
  value_of :
      {P : A → S → Type 0} (r : Result A) (s : S) → Returns P (r, s) → (a : A) × (r ≡ ok a) × P a s
  value_of (ok a) s h = (a, refl, h.at)
  value_of (err e) s h = absurd h.at

  pub Returns-value :
      {P : A → S → Type 0} {o : Result A × S} → Returns P o → (a : A) × (o.0 ≡ ok a) × P a o.1
  Returns-value {o = o} h = value_of o.0 o.1 (record { at = h.at })

pub Sure-when : {S : Type 0} (b : Bool) (m : Action S Done) → Sure m → Sure (when b m)
Sure-when true m h = record { at = λ s. h.at s }
Sure-when false m h = record { at = λ s. (tt, refl) }

pub ruleset sure_rules =
    (Sure-pure, Sure-in_context, Sure-ignoring_error, Sure-deferring, Sure-bind, Sure-when)
