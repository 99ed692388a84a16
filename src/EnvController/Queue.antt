-- ===== src/EnvController/Queue.antt =====
-- The work queue brings a request back after an error, a requeue or a delay: an environment that is
-- due gets through it in two reconciles at most.
use flox_controller.Prelude.{
  ℕ, zero, suc, Bool, false, ◌||◌, not, is_some, none, some, ◌==◌, nat_eq, if◌then◌else◌, ok, ◌≡◌,
  refl, ◌∙◌, Option-cases, inl, inr,
}
use flox_controller.Api.{FloxEnv, FloxEnvSpec, Condition}
use flox_controller.Client.{NamespacedName, Outcome, no_requeue}
use flox_controller.Conditions.{IsLawful}
use flox_controller.Manifest.{parse_manifest}
use flox_controller.EnvController.Types.{Reconciler}
use flox_controller.EnvController.Status.{set_ready, already_realized, mark_pending}
use flox_controller.EnvController.Reconcile.{
  check_deps, with_resolved, with_manifest, reconcile_env, reconcile,
}
use flox_controller.EnvController.Realizations.{already_realized-set_ready}
use flox_controller.EnvController.Settling.{IsQuiet, find-set_ready}
use flox_controller.EnvController.Progress.{Its, IsServed, Done, take_slot-Done}

-- The queue brings the request back.
abbrev pub comes_back : {S : Type 0} → Outcome S → Bool
comes_back o = is_some o.error || o.result.requeue || not (o.result.requeue_after == 0)

stays : {S : Type 0} (o : Outcome S) → o.error ≡ none → o.result ≡ no_requeue → comes_back o ≡ false
unfolding nat_eq
stays o none_err plain = rw (none_err, plain) refl

module _ (r : Reconciler) (req : NamespacedName) where
  open r use {client, conditions}

  -- The reconciles of a request, until it does not come back, or the fuel is spent.
  unfoldable pub work : ℕ → client.State → Outcome client.State
  work zero s = reconcile r s req
  work (suc fuel) s =
      let o = reconcile r s req in let rest = work fuel o.state in if comes_back o then rest else o

  module _ (spec : FloxEnvSpec) (I : client.State → Type 0) (served : IsServed r req spec I)
      (quiet : IsQuiet client) (lawful : IsLawful conditions) where
    get_env-Its :
        (s : client.State) (env : FloxEnv)
        → client.get_env s req.namespace req.name ≡ ok env
        → env.spec ≡ spec
        → Its req spec env
    get_env-Its s env found same =
        let named = quiet.get_named s req.namespace req.name env found in (named.0, named.1, same)

    with_manifest-Done :
        (s : client.State) (env : FloxEnv)
        → I s
        → Its req spec env
        → Done r req spec I served quiet lawful
            (with_manifest r s env (parse_manifest r.unmarshal env.spec.manifest))
    unfolding with_manifest with_resolved check_deps
    with_manifest-Done s env i its =
        let (m, m', toml, parsed, full, written, met) = served.prepared s env i its in
        rw parsed (
          rw (with_manifest, full)
            (rw (with_resolved, written)
              (rw (check_deps, met)
                (take_slot-Done r req spec I served quiet lawful s env toml i its))))

    -- An environment with a Ready condition that is due is realised by one reconcile.
    reconcile-Done :
        (s : client.State) (env : FloxEnv) (ready : Condition)
        → I s
        → Its req spec env
        → client.get_env s req.namespace req.name ≡ ok env
        → conditions.find "Ready" env.status.conditions ≡ some ready
        → already_realized r.node_name env ≡ false
        → Done r req spec I served quiet lawful (reconcile r s req)
    unfolding reconcile reconcile_env
    reconcile-Done s env ready i its found cond due =
        rw (reconcile, found) (rw (reconcile_env, cond) (rw due (with_manifest-Done s env i its)))

    work-Done :
        (fuel : ℕ) (s : client.State)
        → Done r req spec I served quiet lawful (reconcile r s req)
        → Done r req spec I served quiet lawful (work fuel s)
    unfolding work
    work-Done zero s done = done
    work-Done (suc fuel) s done = rw (stays (reconcile r s req) done.0 done.1) done

    -- Where the server takes what the reconcile writes, the manifest can be resolved and written, the
    -- dependencies are Ready, slots become free and the provisioner succeeds, an environment that is
    -- due, its relock annotation included, is realised with two reconciles at most, however often
    -- the queue would bring the request back: the last one ends without an error and does not come
    -- back, and the environment that is stored counts as realised and is Ready. Nobody else writes
    -- environments, and the condition functions are such as IsLawful says.
    pub work_lem :
        (fuel : ℕ) (s : client.State) (env : FloxEnv)
        → I s
        → env.spec ≡ spec
        → client.get_env s req.namespace req.name ≡ ok env
        → already_realized r.node_name env ≡ false
        → Done r req spec I served quiet lawful (work (suc fuel) s)
    unfolding work mark_pending reconcile reconcile_env
    work_lem fuel s env i same found due =
        elim (Option-cases (conditions.find "Ready" env.status.conditions)) [
          | inr (ready, cond) ↦
              work-Done (suc fuel) s
                (reconcile-Done s env ready i (get_env-Its s env found same) found cond due)
          | inl untouched ↦
              let its = get_env-Its s env found same in
              let marked : FloxEnv =
                set_ready conditions env "False" "Pending" "queued for realisation" in
              let (stored, accepted, i') = served.patched s env marked i its in
              let s' : client.State = (client.patch_env_status s env marked).1 in
              let found' : client.get_env s' req.namespace req.name ≡ ok marked =
                rw (← its.0, ← its.1) (quiet.stored-patch s env marked stored accepted).1 in
              let done =
                reconcile-Done s' marked _ i' its found'
                  (find-set_ready conditions lawful _ env.status.conditions refl)
                  (already_realized-set_ready conditions env r.node_name "False" "Pending"
                      "queued for realisation"
                    ∙ due) in
              rw (reconcile, found)
                (rw (reconcile_env, untouched)
                  (rw (mark_pending, accepted) (work-Done fuel s' done)))
        ]
