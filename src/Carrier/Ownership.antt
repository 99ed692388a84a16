-- ===== src/Carrier/Ownership.antt =====
-- The base carrier after startup: the embedded definition, unless an operator owns it.
use flox_controller.Prelude.{
  String, true, false, none, string_eq, ok, is_not_found, ◌≡◌, refl, ◌⊎◌, inl, inr, Bool-cases,
  Result-cases, subst, ap, ◌∙◌, ◌==◌, arith,
}
use flox_controller.Prelude.Dict.{Dict, get, lookup-insert}
use flox_controller.Api.{FloxEnv, FloxEnvSpec}
use flox_controller.Client.{Client}
use flox_controller.Carrier.{
  managed_by_label, managed_by_value, desired_base, is_managed, create_base, update_base,
  ensure_desired, ensure_base,
}

-- A read after a write that succeeds has the labels that were sent, and their specification with the
-- defaults of the definition filled in; what else the server sets is left open. A read returns the
-- object of the name that was asked for.
pub record IsStoring (c : Client) : Type 0 where
  pub defaulted : FloxEnvSpec → FloxEnvSpec
  pub get-create :
      (s : c.State) (env stored : FloxEnv)
      → (c.create_env s env).0 ≡ ok stored
      → (held : FloxEnv) × (c.get_env (c.create_env s env).1 env.namespace env.name ≡ ok held)
        × (held.spec ≡ defaulted env.spec)
        × (held.meta.labels ≡ env.meta.labels)
  pub get-update :
      (s : c.State) (env stored : FloxEnv)
      → (c.update_env s env).0 ≡ ok stored
      → (held : FloxEnv) × (c.get_env (c.update_env s env).1 env.namespace env.name ≡ ok held)
        × (held.spec ≡ defaulted env.spec)
        × (held.meta.labels ≡ env.meta.labels)
  pub get_named :
      (s : c.State) (ns name : String) (env : FloxEnv)
      → c.get_env s ns name ≡ ok env
      → (env.namespace ≡ ns) × (env.name ≡ name)

module _ (c : Client) (storing : IsStoring c) where
  -- The environment of the carrier's name has the definition and the controller's label, or is an
  -- operator's and untouched.
  abbrev pub IsEnsured : c.State → c.State → FloxEnv → Type 0
  IsEnsured s s' desired =
      (env : FloxEnv) × (c.get_env s' desired.namespace desired.name ≡ ok env)
      × (((env.spec ≡ storing.defaulted desired.spec) × (is_managed env ≡ true))
          ⊎ ((is_managed env ≡ false) × (s' ≡ s)))

  is_managed-labels :
      (a b : FloxEnv) → a.meta.labels ≡ b.meta.labels → is_managed b ≡ true → is_managed a ≡ true
  unfolding is_managed
  is_managed-labels a b same h =
      ap (λ (labels : Dict String String). get labels managed_by_label == managed_by_value) same ∙ h

  desired_base-is_managed :
      (decoded : FloxEnv) (namespace : String) → is_managed (desired_base decoded namespace) ≡ true
  unfolding is_managed desired_base
  desired_base-is_managed decoded namespace =
      ground (
        arith,
        lookup-insert managed_by_label managed_by_label managed_by_value decoded.meta.labels,
      )

  create_base-IsEnsured :
      (s : c.State) (desired : FloxEnv)
      → is_managed desired ≡ true
      → (create_base c s desired).0 ≡ none
      → IsEnsured s (create_base c s desired).1 desired
  unfolding create_base
  create_base-IsEnsured s desired owned done = elim (Result-cases (c.create_env s desired).0) [
    | inl (e, bad) ↦ cc (rw (bad, create_base) at done)
    | inr (stored, good) ↦
        let (held, found, spec, labels) = storing.get-create s desired stored good in
        rw (good, create_base)
          (held, found, inl (spec, is_managed-labels held desired labels owned))
  ]

  update_base-IsEnsured :
      (s : c.State) (existing desired : FloxEnv)
      → c.get_env s desired.namespace desired.name ≡ ok existing
      → (update_base c s existing desired).0 ≡ none
      → IsEnsured s (update_base c s existing desired).1 desired
  unfolding update_base
  update_base-IsEnsured s existing desired found done = elim (Bool-cases (is_managed existing)) [
    | inr forked ↦ rw (forked, update_base) (existing, found, inr (forked, refl))
    | inl owned ↦
        let sent : FloxEnv = record existing { spec = desired.spec } in
        let (ns, name) = storing.get_named s desired.namespace desired.name existing found in
        elim (Result-cases (c.update_env s sent).0) [
          | inl (e, bad) ↦ cc (rw (owned, bad, update_base) at done)
          | inr (stored, good) ↦
              let (held, read, spec, labels) = storing.get-update s sent stored good in
              rw (owned, good, update_base)
                (
                  held,
                  subst (λ n. c.get_env (c.update_env s sent).1 desired.namespace n ≡ ok held) name
                      (subst (λ n. c.get_env (c.update_env s sent).1 n existing.name ≡ ok held) ns
                        read),
                  inl (spec, is_managed-labels held existing labels owned),
                )
        ]
  ]

  -- Where EnsureBase reports no error, the environment of the carrier's name has the embedded
  -- definition, with the server's defaults, and the controller's label, or it has not that label and
  -- nothing was written.
  pub ensure_base-IsEnsured :
      (s : c.State) (decoded : FloxEnv) (namespace : String)
      → (ensure_base c s (ok decoded) namespace).0 ≡ none
      → IsEnsured s (ensure_base c s (ok decoded) namespace).1 (desired_base decoded namespace)
  unfolding ensure_base ensure_desired
  ensure_base-IsEnsured s decoded namespace done =
      let desired = desired_base decoded namespace in
      elim (Result-cases (c.get_env s desired.namespace desired.name)) [
        | inr (existing, found) ↦
            rw (found, ensure_desired)
              (update_base-IsEnsured s existing desired found (rw (found, ensure_desired) at done))
        | inl (e, absent) ↦ elim (Bool-cases (is_not_found e)) [
          | inl missing ↦
              rw (absent, missing, ensure_desired)
                (create_base-IsEnsured s desired (desired_base-is_managed decoded namespace)
                  (rw (absent, missing, ensure_desired) at done))
          | inr broken ↦ cc (rw (absent, broken, ensure_desired) at done)
        ]
      ]
