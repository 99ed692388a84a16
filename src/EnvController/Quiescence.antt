-- ===== src/EnvController/Quiescence.antt =====
-- A reconcile that ends without an error or a requeue has nothing more to do.
use flox_controller.Prelude.{
  ℕ, String, none, List, [], ◌∷◌, string_eq, nat_eq, Result, ok, err, Error, ◌≡◌, sym, ap, subst,
  ignore_not_found, ◌∙◌, arith, Result-cases, Option-cases, Bool-cases, inl, inr,
}
use flox_controller.Prelude.Dict.{get}
use flox_controller.Api.{FloxEnv}
use flox_controller.Client.{NamespacedName, finish, no_requeue}
use flox_controller.Conditions.{IsLawful}
use flox_controller.Manifest.{
  Resolved, waiting, resolved, manifest_to_toml, Fields, resolve_flake_installs, parse_manifest,
}
use flox_controller.EnvController.Types.{Reconciler, RealizeRequest}
use flox_controller.EnvController.Status.{
  already_realized, wait_for_flake, mark_pending, mark_realizing, wait_for_deps, unmet_deps,
  relock_annotation,
}
use flox_controller.EnvController.Reconcile.{
  folder_of, consumption_of, lock_of, timeout_of, realise, take_slot, check_deps, with_resolved,
  with_manifest, reconcile_env, reconcile,
}
use flox_controller.EnvController.Settling.{
  IsQuiet, Settles, settled, fail-Settles, deliver-Settles, mark_realizing-eq,
}

module _ (r : Reconciler) (quiet : IsQuiet r.client) (lawful : IsLawful r.conditions)
    (req : NamespacedName) where
  open r use {client, conditions}

  realise-Settles :
      (s : client.State) (env : FloxEnv) (toml : String)
      → env.namespace ≡ req.namespace
      → env.name ≡ req.name
      → Settles r quiet lawful req (realise r s env toml)
  unfolding realise
  realise-Settles s env toml ns name =
      let marked : FloxEnv = (mark_realizing r s env).0 in
      let e = mark_realizing-eq r quiet lawful req s env in
      let request : RealizeRequest = record {
        ref = record { folder = folder_of env; name = marked.name };
        manifest_toml = toml;
        lock = lock_of env;
        consumption = consumption_of env;
      } in
      let ran = r.realize (mark_realizing r s env).1 (timeout_of r) request in
      elim (Result-cases ran.0) [
        | inl (cause, bad) ↦
            rw (realise, bad) (fail-Settles r quiet lawful req ran.1 marked "RealizeFailed" cause)
        | inr (res, good) ↦
            rw (realise, good)
              (deliver-Settles r quiet lawful req ran.1 marked res env.status.lock _
                (ap (λ x. x.namespace) e ∙ ns) (ap (λ x. x.name) e ∙ name)
                (ap (λ x. get x.annotations relock_annotation) e))
      ]

  take_slot-Settles :
      (s : client.State) (env : FloxEnv) (toml : String)
      → env.namespace ≡ req.namespace
      → env.name ≡ req.name
      → Settles r quiet lawful req (take_slot r s env toml)
  unfolding take_slot
  take_slot-Settles s env toml ns name = elim (Option-cases (r.wait_slot s).0) [
    | inl slot ↦ rw (take_slot, slot) (realise-Settles (r.wait_slot s).1 env toml ns name)
    | inr (e, stopped) ↦ rw (take_slot, stopped) (λ none_err plain. cc)
  ]

  check_deps-Settles :
      (s : client.State) (env : FloxEnv) (toml : String) (unmet : List String)
      → env.namespace ≡ req.namespace
      → env.name ≡ req.name
      → Settles r quiet lawful req (check_deps r s env toml unmet)
  unfolding check_deps wait_for_deps
  check_deps-Settles s env toml [] ns name = take_slot-Settles s env toml ns name
  check_deps-Settles s env toml (n ∷ unmet) ns name =
      λ none_err plain. absurd (delays (ap (λ x. x.requeue_after) plain))
    where
      delays : ◌≡◌ {A = ℕ} 10 0 → ⊥
      delays e = omega arith

  with_resolved-Settles :
      (s : client.State) (env : FloxEnv) (m : Result Resolved)
      → env.namespace ≡ req.namespace
      → env.name ≡ req.name
      → Settles r quiet lawful req (with_resolved r s env m)
  unfolding with_resolved wait_for_flake
  with_resolved-Settles s env (err e) ns name =
      fail-Settles r quiet lawful req s env "FlakeResolveFailed" e
  with_resolved-Settles s env (ok waiting) ns name =
      λ none_err plain. absurd (delays (ap (λ x. x.requeue_after) plain))
    where
      delays : ◌≡◌ {A = ℕ} 15 0 → ⊥
      delays e = omega arith
  with_resolved-Settles s env (ok (resolved m)) ns name =
      elim (Result-cases (manifest_to_toml r.marshal m)) [
        | inl (e, bad) ↦
            rw (with_resolved, bad) (fail-Settles r quiet lawful req s env "SerializeFailed" e)
        | inr (toml, good) ↦
            rw (with_resolved, good) (check_deps-Settles s env toml (unmet_deps r s env) ns name)
      ]

  with_manifest-Settles :
      (s : client.State) (env : FloxEnv) (m : Result Fields)
      → env.namespace ≡ req.namespace
      → env.name ≡ req.name
      → Settles r quiet lawful req (with_manifest r s env m)
  unfolding with_manifest
  with_manifest-Settles s env (err e) ns name =
      fail-Settles r quiet lawful req s env "SerializeFailed" e
  with_manifest-Settles s env (ok m) ns name =
      with_resolved-Settles s env (resolve_flake_installs client s env.namespace m) ns name

  mark_pending-Settles :
      (s : client.State) (env : FloxEnv) → Settles r quiet lawful req (mark_pending r s env)
  unfolding mark_pending
  mark_pending-Settles s env none_err plain = ground arith

  reconcile_env-Settles :
      (s : client.State) (env : FloxEnv)
      → client.get_env s req.namespace req.name ≡ ok env
      → Settles r quiet lawful req (reconcile_env r s env)
  unfolding reconcile_env
  reconcile_env-Settles s env found =
      let named = quiet.get_named s req.namespace req.name env found in
      elim (Option-cases (conditions.find "Ready" env.status.conditions)) [
        | inl untouched ↦ rw (reconcile_env, untouched) (mark_pending-Settles s env)
        | inr (ready, cond) ↦ elim (Bool-cases (already_realized r.node_name env)) [
          | inl done ↦
              rw (reconcile_env, cond)
                (rw done (λ none_err plain. settled r quiet lawful req s env ready found cond done))
          | inr due ↦
              rw (reconcile_env, cond)
                (rw due (
                  with_manifest-Settles s env (parse_manifest r.unmarshal env.spec.manifest) named.0
                    named.1))
        ]
      ]

  reconcile_missing :
      (s : client.State) (e : Error)
      → client.get_env s req.namespace req.name ≡ err e
      → reconcile r s req ≡ finish (ignore_not_found e) s
  unfolding reconcile
  reconcile_missing s e bad = rw (reconcile, bad)

  reconcile_found :
      (s : client.State) (env : FloxEnv)
      → client.get_env s req.namespace req.name ≡ ok env
      → reconcile r s req ≡ reconcile_env r s env
  unfolding reconcile
  reconcile_found s env found = rw (reconcile, found)

  reconcile-Settles : (s : client.State) → Settles r quiet lawful req (reconcile r s req)
  reconcile-Settles s = elim (Result-cases (client.get_env s req.namespace req.name)) [
    | inl (e, bad) ↦
        let same = reconcile_missing s e bad in
        subst (Settles r quiet lawful req) (sym same)
          (λ none_err plain. same ∙ ap (λ x. finish x s) none_err)
    | inr (env, found) ↦
        subst (Settles r quiet lawful req) (sym (reconcile_found s env found))
          (reconcile_env-Settles s env found)
  ]

  -- Where nobody else writes environments, a reconcile that ends with no error and no requeue
  -- leaves a state in which the next one does nothing: it ends at once and writes nothing. The
  -- client is such as IsQuiet says, and the condition functions as IsLawful says.
  pub reconcile_settles :
      (s : client.State)
      → (reconcile r s req).error ≡ none
      → (reconcile r s req).result ≡ no_requeue
      → reconcile r (reconcile r s req).state req ≡ finish none (reconcile r s req).state
  reconcile_settles s = reconcile-Settles s
