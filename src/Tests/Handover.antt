-- ===== src/Tests/Handover.antt =====
-- A pod that waits for an environment that no reconcile has touched.
use flox_controller.Prelude.{
  true, false, some, [], ◌∷◌, string_eq, nat_eq, contains, ok, error_of, ◌≡◌, refl, sym, ap, ◌∙◌,
  path_of_eq, inl, arith, has_prefix, split_last,
}
use flox_controller.Api.{FloxEnv}
use flox_controller.Core.{Pod}
use flox_controller.Client.{finish}
use flox_controller.Floxenv.{EnvRef, ref_eq, refs_from_annotations}
use flox_controller.EnvController.Status.{already_realized, realized_env}
use flox_controller.EnvController.Queue.{work}
use flox_controller.PodGate
use flox_controller.PodGate.{has_gate, resolve_flox_env, gated_pods_for_env}
use flox_controller.PodGate.Waiters.{request_eq}
use flox_controller.Handover.{work-released, request_of, coordinate, OthersRealized}
use flox_controller.Tests.Memory.{World, listed-IsLawful}
use flox_controller.Tests.Gate.{waiting_pod}
use flox_controller.Tests.Environments.{world_of, web_request, new_result}
use flox_controller.Tests.Queue.{willing, willing-IsQuiet, on_it, on_it-IsServed, untouched, HasIt}

abbrev waiter : Pod
waiter = record waiting_pod {
  meta = record (waiting_pod.meta) {
    annotations = ("flox.seedmatic.io/environment.main", "networking/web") ∷ [];
  };
}

abbrev before : World
before = record (world_of untouched []) { pods = waiter ∷ [] }

abbrev target : EnvRef
target = coordinate web_request (untouched.spec)

-- The world once the request is done.
abbrev after : World
after = (work on_it web_request 2 before).state

abbrev realized_web : FloxEnv
realized_web = realized_env on_it untouched new_result ""

after_eq : after ≡ record before { envs = realized_web ∷ [] }
unfolding work realized_env already_realized string_eq nat_eq
    flox_controller.EnvController.Reconcile.reconcile
    flox_controller.EnvController.Reconcile.reconcile_env
    flox_controller.EnvController.Status.mark_pending
    flox_controller.EnvController.Status.realized_here
    flox_controller.EnvController.Reconcile.with_manifest
    flox_controller.EnvController.Reconcile.with_resolved
    flox_controller.EnvController.Reconcile.check_deps
    flox_controller.EnvController.Status.unmet_deps
    flox_controller.EnvController.Reconcile.take_slot
    flox_controller.EnvController.Reconcile.realise
    flox_controller.EnvController.Reconcile.consumption_of
    flox_controller.EnvController.Reconcile.deliver
    flox_controller.EnvController.Reconcile.folder_of
    flox_controller.EnvController.Reconcile.lock_of
    flox_controller.EnvController.Reconcile.record_realized
    flox_controller.EnvController.Reconcile.timeout_of
    flox_controller.EnvController.Restart.hex_digit flox_controller.EnvController.Restart.hex_prefix
    flox_controller.EnvController.Restart.join_errors
    flox_controller.EnvController.Restart.lock_digest
    flox_controller.EnvController.Restart.needs_stamp
    flox_controller.EnvController.Restart.restart_consumers
    flox_controller.EnvController.Restart.roll flox_controller.EnvController.Restart.stamp_consumer
    flox_controller.EnvController.Restart.stamp_consumers
    flox_controller.EnvController.Restart.stamped flox_controller.EnvController.Restart.target_of
    flox_controller.EnvController.Status.fail flox_controller.EnvController.Status.mark_realizing
    flox_controller.EnvController.Status.upsert_realization flox_controller.Prelude.Dict.lookup
    flox_controller.Manifest.parse_manifest flox_controller.Manifest.resolve_flake_installs
    flox_controller.Manifest.lookup_field flox_controller.Manifest.manifest_to_toml
after_eq = refl

abbrev settled_world : World
settled_world = record before { envs = realized_web ∷ [] }

reads_it : willing.get_env settled_world "networking" "web" ≡ ok realized_web
unfolding string_eq realized_env
reads_it = refl

resolves_it : resolve_flox_env willing settled_world target ≡ ok (some realized_web)
unfolding string_eq realized_env resolve_flox_env PodGate.effective_folder
resolves_it = refl

its_own :
    (e : FloxEnv)
    → willing.get_env after "networking" "web" ≡ ok e
    → resolve_flox_env willing after target ≡ ok (some e)
its_own e found =
    let got : ok realized_web ≡ ok e =
      sym reads_it
      ∙ sym (ap (λ (w : World). willing.get_env w "networking" "web") after_eq)
      ∙ found in
    let same : realized_web ≡ e = cc in
    ap (λ (w : World). resolve_flox_env willing w target) after_eq
    ∙ resolves_it
    ∙ ap (λ (x : FloxEnv). ok (some x)) same

waiter-refs : refs_from_annotations waiter.annotations ≡ target ∷ []
unfolding refs_from_annotations has_prefix nat_eq string_eq split_last
waiter-refs = refl

no_others : OthersRealized willing after "n1" target (target ∷ [])
no_others ref listed differ = absurd (differ (path_of_eq ref target (ground (arith, listed))))

work-released_example :
    (stored : FloxEnv) × (willing.get_env after "networking" "web" ≡ ok stored)
    × (contains (gated_pods_for_env willing after stored) (request_of waiter) ≡ true)
    × (sent : Pod) × (has_gate sent ≡ false)
    × (PodGate.reconcile willing after (request_of waiter)
        ≡ finish (error_of (willing.update_pod after sent).0) (willing.update_pod after sent).1)
unfolding string_eq already_realized flox_controller.Prelude.Dict.lookup
    flox_controller.EnvController.Status.realized_here has_gate ref_eq
work-released_example =
    work-released on_it web_request (untouched.spec) HasIt on_it-IsServed willing-IsQuiet
      listed-IsLawful 1 before untouched (waiter ∷ []) waiter target []
      (untouched, refl, refl, refl) refl refl refl its_own
      (ap (λ (w : World). willing.list_pods w) after_eq) (inl refl)
      (ap (λ (w : World). willing.get_pod w "apps" "p") after_eq) refl waiter-refs refl no_others
