-- ===== src/EnvController/Gates.antt =====
-- What holds a realise back: dependencies that are not ready.
use flox_controller.Prelude.{
  ℕ, String, Bool, true, false, ◌&&◌, not, Option, List, [], ◌∷◌, string_eq, contains, Result, ok,
  err, Error, ◌≡◌, refl, ◌∙◌, arith, Result-cases, Option-cases, inl, inr,
}
use flox_controller.Api.{FloxEnv}
use flox_controller.Client.{NamespacedName}
use flox_controller.Conditions.{IsLawful, status_is_true}
use flox_controller.Manifest.{
  Resolved, waiting, resolved, manifest_to_toml, Fields, resolve_flake_installs, parse_manifest,
}
use flox_controller.EnvController.Types.{Reconciler, RealizeRequest, RealizeResult}
use flox_controller.EnvController.Status.{
  unmet_in, unmet_deps, fail, wait_for_flake, wait_for_deps, mark_pending,
}
use flox_controller.EnvController.Reconcile.{
  check_deps, with_resolved, with_manifest, reconcile_env, reconcile,
}

contains-eq_cons :
    (xs : List String) (n : String)
    → contains xs n ≡ true
    → (m : String) × (ms : List String) × (xs ≡ m ∷ ms)
contains-eq_cons [] n h = cc
contains-eq_cons (m ∷ ms) n h = (m, ms, refl)

module _ (r : Reconciler) where
  open r use {client, conditions}

  -- The dependency exists and its Ready condition is true.
  abbrev pub dep_ready : client.State → String → String → Bool
  dep_ready s namespace name = elim (client.get_env s namespace name) [
    | err e ↦ false
    | ok dep ↦ status_is_true (conditions.find "Ready" dep.status.conditions)
  ]

  contains-unmet_in :
      IsLawful conditions
      → (s : client.State) (namespace : String) (names : List String) (n : String)
      → contains (unmet_in r s namespace names) n
        ≡ (contains names n && not (dep_ready s namespace n))
  unfolding unmet_in
  contains-unmet_in lawful s namespace [] n = refl
  contains-unmet_in lawful s namespace (name ∷ names) n =
      elim (Result-cases (client.get_env s namespace name)) [
        | inl (e, bad) ↦ ground (arith, bad, contains-unmet_in lawful s namespace names n)
        | inr (dep, found) ↦ ground (
          arith,
          found,
          lawful.is_true-find "Ready" dep.status.conditions,
          contains-unmet_in lawful s namespace names n,
        )
      ]

  -- Another provisioner, behind another queue for slots.
  module _ (realize' : client.State → ℕ → RealizeRequest → Result RealizeResult × client.State)
      (wait' : client.State → Option Error × client.State) where
    abbrev pub with_provisioner : Reconciler
    with_provisioner = record r { realize = realize'; wait_slot = wait' }

    unmet_in_ext :
        (s : client.State) (namespace : String) (names : List String)
        → unmet_in with_provisioner s namespace names ≡ unmet_in r s namespace names
    unfolding unmet_in
    unmet_in_ext s namespace [] = refl
    unmet_in_ext s namespace (name ∷ names) = ground (arith, unmet_in_ext s namespace names)

    with_resolved_ext :
        (s : client.State) (env : FloxEnv) (m : Result Resolved) (n : String) (names : List String)
        → unmet_in r s env.namespace env.spec.depends_on ≡ n ∷ names
        → with_resolved with_provisioner s env m ≡ with_resolved r s env m
    unfolding with_resolved check_deps fail wait_for_flake wait_for_deps unmet_deps
    with_resolved_ext s env (err e) n names h = refl
    with_resolved_ext s env (ok waiting) n names h = refl
    with_resolved_ext s env (ok (resolved m)) n names h =
        elim (Result-cases (manifest_to_toml r.marshal m)) [
          | inl (e, bad) ↦ rw (bad, with_resolved)
          | inr (toml, good) ↦
              rw (good, with_resolved) (rw (unmet_in_ext s env.namespace env.spec.depends_on, h))
        ]

    with_manifest_ext :
        (s : client.State) (env : FloxEnv) (m : Result Fields) (n : String) (names : List String)
        → unmet_in r s env.namespace env.spec.depends_on ≡ n ∷ names
        → with_manifest with_provisioner s env m ≡ with_manifest r s env m
    unfolding with_manifest fail
    with_manifest_ext s env (err e) n names h = refl
    with_manifest_ext s env (ok m) n names h =
        with_resolved_ext s env (resolve_flake_installs client s env.namespace m) n names h

    reconcile_env_ext :
        (s : client.State) (env : FloxEnv) (n : String) (names : List String)
        → unmet_in r s env.namespace env.spec.depends_on ≡ n ∷ names
        → reconcile_env with_provisioner s env ≡ reconcile_env r s env
    unfolding reconcile_env mark_pending
    reconcile_env_ext s env n names h =
        elim (Option-cases (conditions.find "Ready" env.status.conditions)) [
          | inl untouched ↦ rw (untouched, reconcile_env)
          | inr (ready, cond) ↦
              rw (cond, reconcile_env)
                (rw (
                  with_manifest_ext s env (parse_manifest r.unmarshal env.spec.manifest) n names h))
        ]

    -- While a declared dependency is missing or not Ready, nothing that the reconcile does depends
    -- on the provisioner or on the queue for slots: it is the same with any other. The environment
    -- can be read, and the condition functions are such as IsLawful says.
    pub reconcile_unmet_ext :
        IsLawful conditions
        → (s : client.State) (req : NamespacedName) (env : FloxEnv) (n : String)
        → client.get_env s req.namespace req.name ≡ ok env
        → contains env.spec.depends_on n ≡ true
        → dep_ready s env.namespace n ≡ false
        → reconcile with_provisioner s req ≡ reconcile r s req
    unfolding reconcile
    reconcile_unmet_ext lawful s req env n found declared unready =
        let (m, ms, some_unmet) =
          contains-eq_cons (unmet_in r s env.namespace env.spec.depends_on) n (
            contains-unmet_in lawful s env.namespace env.spec.depends_on n
            ∙ rw (declared, unready)) in
        rw (found, reconcile) (reconcile_env_ext s env m ms some_unmet)
