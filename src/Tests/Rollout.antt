-- ===== src/Tests/Rollout.antt =====
-- An environment that a catalog tells to lock again.
use flox_controller.Prelude.{String, true, false, [], ◌==◌, string_eq, nat_eq, ◌≡◌, ◌≢◌, refl, ap}
use flox_controller.Prelude.Dict.{get}
use flox_controller.Api.{FloxEnv}
use flox_controller.Catalog.{relocked, env_readiness_change}
use flox_controller.Events.{realisation_change}
use flox_controller.EnvController.Status.{relock_annotation}
use flox_controller.EnvController.Reconcile.{lock_of}
use flox_controller.EnvController.Progress.{Done}
use flox_controller.EnvController.Queue.{work}
use flox_controller.Rollout.{work-relocked}
use flox_controller.Tests.Memory.{World, listed-IsLawful}
use flox_controller.Tests.Environments.{due, world_of, web_request}
use flox_controller.Tests.Queue.{willing-IsQuiet, on_it, on_it-IsServed, untouched, HasIt}
use flox_controller.Tests.Catalogs.{catalogs}
use flox_controller.Tests.Process.{predicates, predicates-IsLawful}

abbrev told : FloxEnv
told = relocked "r2" due

abbrev told_world : World
told_world = world_of told []

untold : get due.annotations relock_annotation ≢ "r2"
unfolding string_eq flox_controller.Prelude.Dict.lookup
untold e = let apart : true ≡ false = ap (λ (x : String). x == "") e in cc

unhonoured : ◌≢◌ {A = String} "r2" due.status.relock_token
unfolding string_eq
unhonoured e = let apart : true ≡ false = ap (λ (x : String). x == "r2") e in cc

work-relocked_example :
    (realisation_change predicates due told ≡ true)
    × (env_readiness_change catalogs due told ≡ false)
    × (lock_of told ≡ "")
    × Done on_it web_request
        (untouched.spec)
        HasIt
        on_it-IsServed
        willing-IsQuiet
        listed-IsLawful
        (work on_it web_request 3 told_world)
unfolding string_eq nat_eq relocked
work-relocked_example =
    work-relocked catalogs predicates predicates-IsLawful on_it web_request (untouched.spec) HasIt
      on_it-IsServed willing-IsQuiet listed-IsLawful 2 told_world "r2" due untold unhonoured
      (told, refl, refl, refl) refl refl
