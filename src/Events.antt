-- ===== src/Events.antt =====
-- internal/controller/floxenv_controller.go and floxcatalog_controller.go: which updates of a resource
-- ask for a reconcile. The framework's predicates are parameters.
use flox_controller.Prelude.{String, Bool, false, ◌||◌, not, ◌==◌, nat_eq, string_eq, ◌≡◌, arith}
use flox_controller.Prelude.Dict.{lookup}
use flox_controller.Api.{ObjectMeta, FloxEnv, FloxCatalog}
use flox_controller.EnvController.Status.{already_realized, relock_annotation}
use flox_controller.EnvController.Reconcile.{lock_of}

-- `GenerationChangedPredicate` and `AnnotationChangedPredicate`, on the metadata before an update
-- and after it.
pub record Predicates : Type 0 where
  pub generation_changed : ObjectMeta → ObjectMeta → Bool
  pub annotations_changed : ObjectMeta → ObjectMeta → Bool

-- The second compares maps, so that it drops an update only where all keys have the same values.
pub record IsLawful (e : Predicates) : Type 0 where
  pub generation :
      (old new : ObjectMeta) → e.generation_changed old new ≡ not (old.generation == new.generation)
  pub annotations :
      (old new : ObjectMeta) (key : String)
      → e.annotations_changed old new ≡ false
      → lookup key new.annotations ≡ lookup key old.annotations

module _ (e : Predicates) where
  unfoldable pub realisation_change : FloxEnv → FloxEnv → Bool
  realisation_change old new =
      e.generation_changed old.meta new.meta || e.annotations_changed old.meta new.meta

  unfoldable pub catalog_change : FloxCatalog → FloxCatalog → Bool
  catalog_change old new = e.generation_changed old.meta new.meta

  -- An update that is dropped asks for no realise that its status does not ask for by itself: with
  -- the new status, the old environment is as due on every node, and with the same lock. The
  -- predicates are such as IsLawful says.
  pub realisation_change-already_realized :
      IsLawful e
      → (node : String) (old new : FloxEnv) → realisation_change old new ≡ false
      → (already_realized node new ≡ already_realized node (record old { status = new.status }))
        × (lock_of new ≡ lock_of (record old { status = new.status }))
  unfolding realisation_change already_realized lock_of
  realisation_change-already_realized lawful node old new dropped =
      let told = lawful.annotations old.meta new.meta relock_annotation in
      ground (arith, lawful.generation old.meta new.meta, told)
