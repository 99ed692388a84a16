-- ===== src/Tests/Admission.antt =====
-- A pod at admission, and the webhook's theorems on it.
use mathlib.Core.Option
use flox_controller.Prelude.{
  String, true, false, ◌&&◌, ◌||◌, not, none, some, List, [], ◌∷◌, ◌==◌, string_eq, nat_eq,
  if◌then◌else◌, contains, is_nil, err, Error, other, ◌≡◌, refl,
}
use flox_controller.Prelude.Dict.{Dict, lookup}
use flox_controller.Api.{InjectedEnv, FloxEnv}
use flox_controller.Core.{Pod, Container}
use flox_controller.Client.{Client}
use flox_controller.Floxenv.{EnvRef, ref_eq, refs_from_annotations, scheduling_gate_name}
use flox_controller.PodGate.{has_gate}
use flox_controller.Webhook.{
  PodFloxMutator, env_of, resolve_injects, nix_build_targets, inject_flox_wait, inject_nix_build,
  nix_store_claim, default,
}
use flox_controller.Webhook.Containers.{inject_flox_env_into}
use flox_controller.Webhook.Variables.{
  find_var, last_var, or_var, injected_vars, last_var-inject_flox_env_into,
}
use flox_controller.Webhook.Gate.{inject_flox_wait_gates}
use flox_controller.Webhook.Admission.{default_idem}
use flox_controller.Webhook.Injection.{declared, resolve_injects-refs_from_annotations}
use flox_controller.Webhook.Store.{Refused, inject_nix_build_failed}
use flox_controller.Webhook.Mounts.{HasStores, AllMounted, inject_nix_build-AllMounted}
use flox_controller.Tests.Memory.{World, memory}
use flox_controller.Tests.Gate.{env_with}

abbrev injecting : FloxEnv
injecting =
    let env = env_with "web" [] in
    record env {
      spec = record (env.spec) {
        inject =
            record {
              name = "TOKEN";
              value = "";
              secret_key_ref = some (record { name = "s"; key = "k"; optional = none });
            }
            ∷ [];
      };
    }

abbrev admission_world : World
admission_world = record {
  envs = injecting ∷ [];
  catalogs = [];
  pods = [];
  workloads = [];
  claims = [];
}

abbrev mutator_of : Client → PodFloxMutator
mutator_of c = record {
  client = c;
  has_client = true;
  flox_env_namespace = "networking";
  nix_store_class = "";
  nix_store_size = "";
  must_parse = λ size. none;
}

abbrev mutator : PodFloxMutator
mutator = mutator_of memory

abbrev main_container : Container
main_container = record {
  name = "main";
  env = record { name = "FLOX_NO_TELEMETRY"; value = "0"; secret_key_ref = none } ∷ [];
  volume_mounts = [];
}

abbrev builder : Container
builder = record { name = "build"; env = []; volume_mounts = [] }

abbrev new_pod : Pod
new_pod = record {
  meta = record {
    name = "p";
    namespace = "apps";
    generation = 1;
    annotations =
        ("flox.seedmatic.io/environment.main", "networking/web")
        ∷ ("flox.seedmatic.io/nix-build.build", "store")
        ∷ [];
    labels = [];
  };
  spec = record {
    node_name = "";
    scheduling_gates = "other" ∷ [];
    affinity = none;
    volumes = [];
    init_containers = builder ∷ [];
    containers = main_container ∷ [];
  };
}

inject_flox_wait_gates_example :
    (has_gate (inject_flox_wait mutator admission_world new_pod) ≡ (
      has_gate new_pod
      || (not (is_nil (refs_from_annotations new_pod.annotations))
          && new_pod.spec.node_name == "")))
    × ((g : String)
        → contains (inject_flox_wait mutator admission_world new_pod).spec.scheduling_gates g ≡ (
            if g == scheduling_gate_name
            then has_gate (inject_flox_wait mutator admission_world new_pod)
            else contains new_pod.spec.scheduling_gates g))
inject_flox_wait_gates_example = inject_flox_wait_gates mutator admission_world new_pod

admitted : (default mutator admission_world new_pod).0 ≡ none
unfolding default inject_flox_wait inject_nix_build string_eq nat_eq nix_build_targets
    refs_from_annotations flox_controller.Webhook.inject_flox_env has_gate
    flox_controller.Webhook.ensure_volumes flox_controller.Webhook.ensure_nix_store_pvc
admitted = refl

-- The server with the claim that the first admission makes.
abbrev later : World
later = record admission_world { claims = nix_store_claim mutator "apps" "store" ∷ [] }

default_idem_example :
    (default mutator later (default mutator admission_world new_pod).1).1
    ≡ (default mutator admission_world new_pod).1
default_idem_example = default_idem mutator admission_world later new_pod (λ n. refl) admitted

accepted : (inject_nix_build mutator admission_world new_pod).0 ≡ none
unfolding inject_nix_build string_eq nat_eq nix_build_targets flox_controller.Webhook.ensure_volumes
    flox_controller.Webhook.ensure_nix_store_pvc
accepted = refl

inject_nix_build-AllMounted_example :
    let admitted = (inject_nix_build mutator admission_world new_pod).1 in
    let targets = nix_build_targets new_pod.annotations in
    HasStores targets new_pod.spec.volumes admitted.spec.volumes
    × AllMounted targets new_pod.spec.init_containers admitted.spec.init_containers
    × AllMounted targets new_pod.spec.containers admitted.spec.containers
inject_nix_build-AllMounted_example =
    inject_nix_build-AllMounted mutator admission_world new_pod accepted

-- A server that creates no claim.
abbrev full_server : Client
full_server = record memory { create_claim = λ s claim. (err (other "quota"), s) }

abbrev refusal : Error
refusal = other "ensure nix-store PVC apps/store: quota"

refused : (inject_nix_build (mutator_of full_server) admission_world new_pod).0 ≡ some refusal
unfolding inject_nix_build string_eq nat_eq nix_build_targets flox_controller.Webhook.ensure_volumes
    flox_controller.Webhook.ensure_nix_store_pvc
refused = refl

inject_nix_build_failed_example :
    Refused
      (mutator_of full_server)
      "apps"
      (nix_build_targets new_pod.annotations)
      admission_world
      refusal
      (inject_nix_build (mutator_of full_server) admission_world new_pod).2
inject_nix_build_failed_example =
    inject_nix_build_failed (mutator_of full_server) admission_world new_pod refusal refused

abbrev web_injects : Dict String (List InjectedEnv)
web_injects = ("web", injecting.spec.inject) ∷ []

main_opted_in : lookup "main" (env_of new_pod.annotations) ≡ some "web"
unfolding lookup env_of string_eq nat_eq
main_opted_in = refl

last_var-inject_flox_env_into_example :
    last_var "FLOX_NO_TELEMETRY"
      (inject_flox_env_into (env_of new_pod.annotations) web_injects main_container).env
    ≡ or_var
        (last_var "FLOX_NO_TELEMETRY" main_container.env)
        (find_var "FLOX_NO_TELEMETRY" (injected_vars (Option.get_or (lookup "web" web_injects) [])))
last_var-inject_flox_env_into_example =
    last_var-inject_flox_env_into (env_of new_pod.annotations) web_injects main_container "web"
      "FLOX_NO_TELEMETRY" main_opted_in

namespace_is_set : (mutator.flox_env_namespace == "") ≡ false
unfolding string_eq
namespace_is_set = refl

resolve_injects-refs_from_annotations_example :
    (lookup "web" (resolve_injects mutator admission_world (env_of new_pod.annotations))
      ≡ some (declared mutator admission_world "web"))
    × ((r : EnvRef) × (r.name ≡ "web")
        × (contains (refs_from_annotations new_pod.annotations) r ≡ true))
resolve_injects-refs_from_annotations_example =
    resolve_injects-refs_from_annotations mutator admission_world new_pod.annotations "main" "web"
      refl namespace_is_set main_opted_in
