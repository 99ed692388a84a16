-- ===== src/Catalog/Readiness.antt =====
-- The filter on environment events loses nothing that the rollup of a catalog shows.
use flox_controller.Prelude.{
  suc, String, false, Option, none, some, List, [], ◌∷◌, string_eq, nat_eq, length, split_first,
  ◌≡◌, ◌≢◌, refl, ◌∙◌, ap, sym, arith,
}
use flox_controller.Api.{FloxEnv, Condition}
use flox_controller.Manifest.Reference.{Lacks, split_first-slash}
use flox_controller.Catalog.{
  CatalogReconciler, Counts, count, phase_of, readiness_of, readiness, env_readiness_change,
  plan_of, rollup,
}

-- The status of a condition has no slash, as `True`, `False` and `Unknown` have none.
abbrev pub IsPlain : Option Condition → Type 0
IsPlain none = Unit
IsPlain (some c) = Lacks b'/' c.status

split_readiness :
    (c : Condition)
    → Lacks b'/' c.status
    → split_first b'/' (readiness_of (some c)) ≡ some (c.status, c.reason)
unfolding readiness_of
split_readiness c h = split_first-slash c.status c.reason h

readiness_of-ne-empty : (c : Condition) → Lacks b'/' c.status → readiness_of (some c) ≢ ""
unfolding split_first
readiness_of-ne-empty c h e =
    let bad : ◌≡◌ {A = Option (String × String)} (some (c.status, c.reason)) none =
      sym (split_readiness c h) ∙ ap (split_first b'/') e in
    cc

-- Conditions that the filter does not tell apart count alike and have the same phase.
same_condition :
    (o p : Option Condition)
    → IsPlain o
    → IsPlain p
    → readiness_of o ≡ readiness_of p
    → (phase_of o ≡ phase_of p) × ((n : Counts) → count o n ≡ count p n)
unfolding phase_of count split_first readiness_of
same_condition none none h k e = (refl, λ n. refl)
same_condition none (some d) h k e = absurd (readiness_of-ne-empty d k (sym e))
same_condition (some c) none h k e = absurd (readiness_of-ne-empty c h e)
same_condition (some c) (some d) h k e =
    let parts : ◌≡◌ {A = Option (String × String)} (some (c.status, c.reason))
        (some (d.status, d.reason)) =
      sym (split_readiness c h) ∙ ap (split_first b'/') e ∙ split_readiness d k in
    (ground (arith, parts), λ n. ground (arith, parts))

module _ (r : CatalogReconciler) where
  open r use {conditions}

  abbrev condition_of : FloxEnv → Option Condition
  condition_of env = conditions.find "Ready" env.status.conditions

  -- The same environments by name, where the filter would drop each change.
  abbrev pub AllUnchanged : List FloxEnv → List FloxEnv → Type 0
  AllUnchanged [] [] = Unit
  AllUnchanged [] (after ∷ afters) = ⊥
  AllUnchanged (before ∷ befores) [] = ⊥
  AllUnchanged (before ∷ befores) (after ∷ afters) =
      (before.name ≡ after.name)
      × (env_readiness_change r before after ≡ false)
      × IsPlain (condition_of before)
      × IsPlain (condition_of after)
      × AllUnchanged befores afters

  plan_of_ext :
      (befores afters : List FloxEnv) (n : Counts)
      → AllUnchanged befores afters
      → plan_of r befores n ≡ plan_of r afters n
  unfolding plan_of env_readiness_change readiness
  plan_of_ext [] [] n h = refl
  plan_of_ext [] (after ∷ afters) n h = absurd h
  plan_of_ext (before ∷ befores) [] n h = absurd h
  plan_of_ext (before ∷ befores) (after ∷ afters) n (name, same, plain, plain', rest) =
      let e : readiness_of (condition_of before) ≡ readiness_of (condition_of after) =
        ground arith in
      let (phases, counts) =
        same_condition (condition_of before) (condition_of after) plain plain' e in
      rw (name, phases, counts n, plan_of_ext befores afters (count (condition_of after) n) rest)

  AllUnchanged-length :
      (befores afters : List FloxEnv) → AllUnchanged befores afters → length befores ≡ length afters
  AllUnchanged-length [] [] h = refl
  AllUnchanged-length [] (after ∷ afters) h = absurd h
  AllUnchanged-length (before ∷ befores) [] h = absurd h
  AllUnchanged-length (before ∷ befores) (after ∷ afters) (name, same, plain, plain', rest) =
      ap suc (AllUnchanged-length befores afters rest)

  -- Environments of the same names, each with a Ready condition that the filter does not tell from
  -- the other's, have the same summary and the same plan. No condition's status has a slash.
  pub rollup_ext :
      (befores afters : List FloxEnv)
      → AllUnchanged befores afters
      → rollup r befores ≡ rollup r afters
  unfolding rollup
  rollup_ext befores afters h = rw (
    AllUnchanged-length befores afters h,
    plan_of_ext befores afters (record { ready = 0; realizing = 0 }) h,
  )
