-- ===== src/Rollout.antt =====
-- From a catalog's new revision to the environments that it serves: floxcatalog_controller.go tells
-- them to lock again, and floxenv_controller.go does.
use flox_controller.Prelude.{
  ℕ, suc, String, true, false, not, ok, string_eq, nat_eq, ◌≡◌, ◌≢◌, ◌∙◌, sym, ap, arith,
  Bool-cases, inl, inr, eq_self,
}
use mathlib.Core.Option
use flox_controller.Prelude.Dict.{get}
use flox_controller.Api.{FloxEnv, FloxEnvSpec}
use flox_controller.Client.{NamespacedName}
use flox_controller.Conditions
use flox_controller.Catalog.{CatalogReconciler, relocked, readiness, env_readiness_change}
use flox_controller.Catalog.Relock.{get-relocked, relocked_lem}
use flox_controller.Events.{Predicates, realisation_change}
use flox_controller.Events
use flox_controller.EnvController.Types.{Reconciler}
use flox_controller.EnvController.Status.{relock_annotation}
use flox_controller.EnvController.Reconcile.{lock_of}
use flox_controller.EnvController.Settling.{IsQuiet}
use flox_controller.EnvController.Progress.{IsServed, Done}
use flox_controller.EnvController.Queue.{work, work_lem}

-- The update that tells an environment to lock again is passed to its reconciler.
realisation_change-relocked :
    (e : Predicates)
    → Events.IsLawful e
    → (revision : String) (env : FloxEnv) → get env.annotations relock_annotation ≢ revision
    → realisation_change e env (relocked revision env) ≡ true
unfolding realisation_change
realisation_change-relocked e lawful revision env new =
    elim (Bool-cases (e.annotations_changed env.meta (relocked revision env).meta)) [
      | inl passed ↦ rw passed (ground arith)
      | inr dropped ↦
          let same =
            lawful.annotations env.meta (relocked revision env).meta relock_annotation dropped in
          absurd (new (ap (λ o. Option.get_or o "") (sym same) ∙ get-relocked revision env))
    ]

-- It is not passed back to the catalog's.
env_readiness_change-relocked :
    (r : CatalogReconciler) (revision : String) (env : FloxEnv)
    → env_readiness_change r env (relocked revision env) ≡ false
unfolding env_readiness_change relocked readiness
env_readiness_change-relocked r revision env = ap not (eq_self {A = String} (readiness r env))

-- Where a catalog tells an environment to lock again at a revision that it has neither been told nor
-- honoured, the update is passed to the environment's reconciler and not back to the catalog's. The
-- environment has then no lock to be realised with, and the work queue, which may bring the request
-- back, ends with it stored as realised and Ready. The rest is as for the work queue, and the
-- predicates are such as IsLawful says.
pub work-relocked :
    (catalogs : CatalogReconciler) (e : Predicates) (events : Events.IsLawful e) (r : Reconciler)
    (req : NamespacedName) (spec : FloxEnvSpec) (I : r.client.State → Type 0)
    (served : IsServed r req spec I) (quiet : IsQuiet r.client)
    (lawful : Conditions.IsLawful r.conditions) (fuel : ℕ) (s : r.client.State) (revision : String)
    (env : FloxEnv)
    → get env.annotations relock_annotation ≢ revision
    → revision ≢ env.status.relock_token
    → I s
    → env.spec ≡ spec
    → r.client.get_env s req.namespace req.name ≡ ok (relocked revision env)
    → (realisation_change e env (relocked revision env) ≡ true)
      × (env_readiness_change catalogs env (relocked revision env) ≡ false)
      × (lock_of (relocked revision env) ≡ "")
      × Done r req spec I served quiet lawful (work r req (suc fuel) s)
unfolding relocked
work-relocked catalogs e events r req spec I served quiet lawful fuel s revision env untold
      unhonoured i same found =
    let due = relocked_lem revision r.node_name env in
    (
      realisation_change-relocked e events revision env untold,
      env_readiness_change-relocked catalogs revision env,
      due.0 ∙ ground (arith, unhonoured),
      work_lem r req spec I served quiet lawful fuel s (relocked revision env) i same found
          (due.1 ∙ ground (arith, unhonoured)),
    )
