-- ===== src/Tests/Process.antt =====
-- The theorem on the events that the process watches.
use flox_controller.Prelude.{
  String, Bool, true, false, not, ◌==◌, nat_eq, string_eq, ◌&&◌, ap, path_of_eq, [], ◌∷◌, ◌≡◌, refl,
  arith,
}
use flox_controller.Prelude.Dict.{Dict, lookup}
use flox_controller.Tests.Environments.{due}
use flox_controller.Api.{FloxEnv}
use flox_controller.EnvController.Status.{already_realized}
use flox_controller.EnvController.Reconcile.{lock_of}
use flox_controller.Events.{
  Predicates, IsLawful, realisation_change, realisation_change-already_realized,
}

abbrev same_entries : Dict String String → Dict String String → Bool
same_entries [] [] = true
same_entries [] (e ∷ after) = false
same_entries (e ∷ before) [] = false
same_entries ((k, v) ∷ before) ((j, w) ∷ after) = k == j && v == w && same_entries before after

same_entries-eq :
    (before after : Dict String String) → same_entries before after ≡ true → after ≡ before
same_entries-eq [] [] h = refl
same_entries-eq [] (e ∷ after) h = cc
same_entries-eq (e ∷ before) [] h = cc
same_entries-eq ((k, v) ∷ before) ((j, w) ∷ after) h =
    ground (arith, same_entries-eq before after, path_of_eq k j, path_of_eq v w)

abbrev pub predicates : Predicates
predicates = record {
  generation_changed = λ old new. not (old.generation == new.generation);
  annotations_changed = λ old new. not (same_entries old.annotations new.annotations);
}

pub predicates-IsLawful : IsLawful predicates
predicates-IsLawful = record {
  generation = λ old new. refl;
  annotations = λ old new key kept.
      ap (lookup key) (same_entries-eq old.annotations new.annotations (ground (arith, kept)));
}

-- The environment with another status.
abbrev failed : FloxEnv
failed = record due { status = record (due.status) { lock = "lock2" } }

only_status : realisation_change predicates due failed ≡ false
unfolding realisation_change nat_eq
only_status = refl

realisation_change-already_realized_example :
    (already_realized "n1" failed ≡ already_realized "n1" (record due { status = failed.status }))
    × (lock_of failed ≡ lock_of (record due { status = failed.status }))
realisation_change-already_realized_example =
    realisation_change-already_realized predicates predicates-IsLawful "n1" due failed only_status
