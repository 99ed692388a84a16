-- ===== src/Catalog/Relock.antt =====
-- The relock that a catalog asks of its environments, as the environment's reconciler sees it.
use flox_controller.Prelude.{
  String, true, ◌&&◌, none, List, [], ◌∷◌, ◌==◌, string_eq, if◌then◌else◌, map, ◌≡◌, refl, ◌∙◌,
  arith, eq_self,
}
use flox_controller.Prelude.Dict.{get, lookup-insert}
use flox_controller.Api.{FloxEnv}
use flox_controller.EnvController.Status.{relock_annotation, already_realized, realized_here}
use flox_controller.EnvController.Reconcile.{lock_of}
use flox_controller.Catalog.{CatalogReconciler, relocked, relock_all}

pub get-relocked :
    (revision : String) (env : FloxEnv)
    → get (relocked revision env).meta.annotations relock_annotation ≡ revision
unfolding relocked
get-relocked revision env =
    ground (arith, lookup-insert relock_annotation relock_annotation revision env.meta.annotations)

-- An environment that is told to lock again at a revision is realised with the lock that it has if
-- it has honoured that revision already, and else is due, and realised without its lock.
pub relocked_lem :
    (revision node : String) (env : FloxEnv)
    → (lock_of (relocked revision env)
        ≡ (if revision == env.status.relock_token then env.status.lock else ""))
      × (already_realized node (relocked revision env) ≡ (
          revision == env.status.relock_token
          && realized_here node env.meta.generation env.status.realized))
unfolding lock_of already_realized relocked
relocked_lem revision node env = ground (arith, get-relocked revision env)

-- The environments after a relock in which every patch succeeds.
abbrev pub all_relocked : String → List FloxEnv → List FloxEnv
all_relocked revision = map λ env.
    if get env.meta.annotations relock_annotation == revision then env else relocked revision env

relock_all-told :
    (r : CatalogReconciler) (s : r.client.State) (env : FloxEnv) (envs : List FloxEnv)
    (revision : String)
    → (get env.meta.annotations relock_annotation == revision) ≡ true
    → relock_all r s (env ∷ envs) revision ≡ relock_all r s envs revision
unfolding relock_all
relock_all-told r s env envs revision told = rw (told, relock_all)

told_once :
    (revision : String) (env : FloxEnv)
    → (get
          (if get env.meta.annotations relock_annotation == revision
            then env
            else relocked revision env).meta.annotations
          relock_annotation
        == revision)
      ≡ true
told_once revision env = ground (arith, get-relocked revision env, eq_self {A = String} revision)

-- A second relock at the same revision patches nothing and reports no error.
pub relock_all-all_relocked :
    (r : CatalogReconciler) (s : r.client.State) (envs : List FloxEnv) (revision : String)
    → relock_all r s (all_relocked revision envs) revision ≡ (none, s)
unfolding relock_all
relock_all-all_relocked r s [] revision = refl
relock_all-all_relocked r s (env ∷ envs) revision =
    relock_all-told r s _ (all_relocked revision envs) revision (told_once revision env)
    ∙ relock_all-all_relocked r s envs revision
