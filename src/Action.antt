-- ===== src/Action.antt =====
-- Go's statements that change a state and may fail: the state comes back beside the error too.
pub mod Leaves
pub mod Sure
use flox_controller.Prelude.{
  String, Bool, true, false, Error, wrap, Result, ok, err, ◌≡◌, refl, subst,
}

abbrev pub Action : Type 0 → Type 0 → Type 0
Action S A = S → Result A × S

abbrev pub Done : Type 0
Done = Unit {0}

abbrev wrapped : {A : Type 0} → String → Result A → Result A
wrapped text (ok a) = ok a
wrapped text (err e) = err (wrap text e)

module _ {S A : Type 0} where
  abbrev pub pure : A → Action S A
  pure a s = (ok a, s)

  -- What only reads the state.
  abbrev pub reads : (S → Result A) → Action S A
  reads f s = (f s, s)

  -- `fmt.Errorf(text + ": %w", err)` around an error.
  unfoldable pub in_context : String → Action S A → Action S A
  in_context text m s = let (r, s') = m s in (wrapped text r, s')

  -- `_ = f()`, whose error is dropped.
  unfoldable pub ignoring_error : Action S A → Action S Done
  ignoring_error m s = (ok tt, (m s).1)

  -- `defer f()`, whose error is dropped, around the rest of the function.
  unfoldable pub deferring : Action S Done → Action S A → Action S A
  deferring cleanup m s = let (r, s') = m s in (r, (cleanup s').1)

abbrev pub when : {S : Type 0} → Bool → Action S Done → Action S Done
when true m s = m s
when false m s = (ok tt, s)

module _ {S A B : Type 0} where
  abbrev pub continue : Result A → (A → Action S B) → Action S B
  continue (ok a) f s = f a s
  continue (err e) f s = (err e, s)

  infixl 5 ◌>>=◌ ◌>>◌
  unfoldable pub ◌>>=◌ : Action S A → (A → Action S B) → Action S B
  ◌>>=◌ m f s = let (r, s') = m s in continue r f s'

  abbrev pub ◌>>◌ : Action S A → Action S B → Action S B
  m >> k = m >>= λ _. k

module _ {S A : Type 0} where
  abbrev pub EndsIn : (A → S → Type 0) → (S → Type 0) → Result A → S → Type 0
  EndsIn P E (ok a) s = P a s
  EndsIn P E (err e) s = E s

  -- What holds of an outcome: `P` of a value and the state beside it, `E` of the state beside an
  -- error.
  pub record Ends (P : A → S → Type 0) (E : S → Type 0) (o : Result A × S) : Type 0 where
    pub at : EndsIn P E o.0 o.1

module _ {S A : Type 0} {P : A → S → Type 0} {E : S → Type 0} where
  ends_at :
      (r : Result A) (s : S)
      → ((a : A) → r ≡ ok a → P a s)
      → ((e : Error) → r ≡ err e → E s)
      → Ends P E (r, s)
  ends_at (ok a) s p q = record { at = p a refl }
  ends_at (err e) s p q = record { at = q e refl }

  -- To show it by cases of the result.
  pub Ends-cases :
      (o : Result A × S)
      → ((a : A) → o.0 ≡ ok a → P a o.1)
      → ((e : Error) → o.0 ≡ err e → E o.1)
      → Ends P E o
  Ends-cases o p q = ends_at o.0 o.1 p q

  in_wrapped :
      (text : String) (r : Result A) (s : S) → Ends P E (r, s) → Ends P E (wrapped text r, s)
  in_wrapped text (ok a) s h = h
  in_wrapped text (err e) s h = record { at = h.at }

  pub Ends-in_context :
      (text : String) (m : Action S A) (s : S) → Ends P E (m s) → Ends P E (in_context text m s)
  unfolding in_context
  Ends-in_context text m s h = let (r, s') = m s in in_wrapped text r s' (record { at = h.at })

  in_deferring :
      (cleanup : Action S Done) (r : Result A) (s : S)
      → Ends P E (r, s)
      → Ends
          (λ a s'. (before : S) × P a before × (s' ≡ (cleanup before).1))
          (λ s'. (before : S) × E before × (s' ≡ (cleanup before).1))
          (r, (cleanup s).1)
  in_deferring cleanup (ok a) s h = record { at = (s, h.at, refl) }
  in_deferring cleanup (err e) s h = record { at = (s, h.at, refl) }

  pub Ends-deferring :
      (cleanup : Action S Done) (m : Action S A) (s : S)
      → Ends P E (m s)
      → Ends
          (λ a s'. (before : S) × P a before × (s' ≡ (cleanup before).1))
          (λ s'. (before : S) × E before × (s' ≡ (cleanup before).1))
          (deferring cleanup m s)
  unfolding deferring
  Ends-deferring cleanup m s h = in_deferring cleanup (m s).0 (m s).1 (record { at = h.at })

  in_mono :
      {Q : A → S → Type 0} {F : S → Type 0} (r : Result A) (s : S)
      → Ends P E (r, s)
      → ((a : A) → P a s → Q a s)
      → (E s → F s)
      → Ends Q F (r, s)
  in_mono (ok a) s h f g = record { at = f a h.at }
  in_mono (err e) s h f g = record { at = g h.at }

  pub Ends-mono :
      {Q : A → S → Type 0} {F : S → Type 0} {o : Result A × S}
      → Ends P E o
      → ((a : A) (s : S) → P a s → Q a s)
      → ((s : S) → E s → F s)
      → Ends Q F o
  Ends-mono {o = o} h f g = in_mono o.0 o.1 h (λ a. f a o.1) (g o.1)

  in_bind :
      {B : Type 0} {Q : B → S → Type 0} (r : Result A) (f : A → Action S B) (s : S)
      → Ends P E (r, s)
      → ((a : A) (s : S) → P a s → Ends Q E (f a s))
      → Ends Q E (continue r f s)
  in_bind (ok a) f s h k = k a s h.at
  in_bind (err e) f s h k = record { at = h.at }

  pub Ends-bind :
      {B : Type 0} {Q : B → S → Type 0} (m : Action S A) (f : A → Action S B) (s : S)
      → Ends P E (m s)
      → ((a : A) (s : S) → P a s → Ends Q E (f a s))
      → Ends Q E ((m >>= f) s)
  unfolding ◌>>=◌
  Ends-bind m f s h k = in_bind (m s).0 f (m s).1 h k

module _ {S A : Type 0} {P : A → S → Type 0} {E : S → Type 0} where
  value_in : (r : Result A) (s : S) (a : A) → Ends P E (r, s) → r ≡ ok a → P a s
  value_in (ok b) s a h e = subst (λ a. P a s) (cc) h.at
  value_in (err x) s a h e = cc

  -- What holds of a value that was returned.
  pub Ends-value : {o : Result A × S} (a : A) → Ends P E o → o.0 ≡ ok a → P a o.1
  Ends-value {o = o} a h e = value_in o.0 o.1 a (record { at = h.at }) e

pub Ends-any : {S A : Type 0} (o : Result A × S) → Ends (λ _ _. Unit {0}) (λ _. Unit {0}) o
Ends-any o = Ends-cases o (λ a done. tt) (λ e failed. tt)

module _ {S A : Type 0} {X : S → Type 0} where
  state_in : (r : Result A) (s : S) → Ends (λ _. X) X (r, s) → X s
  state_in (ok a) s h = h.at
  state_in (err e) s h = h.at

  -- What holds either way holds of the state.
  pub Ends-state : {o : Result A × S} → Ends (λ _. X) X o → X o.1
  Ends-state {o = o} h = state_in o.0 o.1 h
