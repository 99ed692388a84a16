-- ===== src/PodGate/Waiters.antt =====
-- gatedPodsForEnv: which pods a changed environment wakes.
use flox_controller.Prelude.{
  Bool, false, ◌&&◌, ◌||◌, List, [], ◌∷◌, Eq, ◌==◌, string_eq, contains, ok, ◌≡◌, refl, arith,
}
use flox_controller.Api.{FloxEnv}
use flox_controller.Core.{Pod}
use flox_controller.Client.{Client, NamespacedName}
use flox_controller.Floxenv.{EnvRef, ref_eq}
use flox_controller.Floxenv.Refs.{some_names_ref, contains-refs_from_annotations}
use flox_controller.PodGate.{has_gate, effective_folder, waiters, gated_pods_for_env}

request_dec : Discrete NamespacedName
request_dec = hlevel (string_eq.dec)

instance unfoldable pub request_eq : Eq NamespacedName
unfolding request_dec string_eq
request_eq = record { dec = request_dec }

-- Some pod of this namespace and name is gated and names the environment by an annotation.
abbrev pub some_pod_waits : EnvRef → List Pod → NamespacedName → Bool
some_pod_waits target [] req = false
some_pod_waits target (p ∷ pods) req =
    (req == record { namespace = p.namespace; name = p.name }
      && has_gate p
      && some_names_ref target p.annotations)
    || some_pod_waits target pods req

contains-waiters :
    (c : Client) (target : EnvRef) (pods : List Pod) (req : NamespacedName)
    → contains (waiters c target pods) req ≡ some_pod_waits target pods req
unfolding waiters
contains-waiters c target [] req = refl
contains-waiters c target (p ∷ pods) req =
    ground (
      arith,
      contains-waiters c target pods req,
      contains-refs_from_annotations p.annotations target,
    )

-- A change of an environment asks for a reconcile of exactly the gated pods that name it, by its
-- folder (or namespace, if it has none) and its name. The pods can be listed.
pub contains-gated_pods_for_env :
    (c : Client) (s : c.State) (env : FloxEnv) (pods : List Pod) (req : NamespacedName)
    → c.list_pods s ≡ ok pods
    → contains (gated_pods_for_env c s env) req
      ≡ some_pod_waits (record { folder = effective_folder env; name = env.name }) pods req
unfolding gated_pods_for_env
contains-gated_pods_for_env c s env pods req listed =
    rw (gated_pods_for_env, listed) (contains-waiters c _ pods req)
