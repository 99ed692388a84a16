-- ===== src/Webhook.antt =====
-- internal/webhook/podflox.go: the admission webhook that gates a pod and prepares its containers.
-- A Go map is a list of entries in the order of an iteration over it.
pub mod Containers
pub mod Variables
pub mod Gate
pub mod Injection
pub mod Store
pub mod Mounts
pub mod Repeated
pub mod Admission
use flox_controller.Prelude.{
  String, ◌<>◌, Bool, true, false, ◌&&◌, not, Option, none, some, List, [], ◌∷◌, ◌==◌, string_eq,
  if◌then◌else◌, contains, is_nil, has_prefix, trim_prefix, ok, err, Error, is_already_exists, wrap,
}
use flox_controller.Prelude.Dict.{Dict, lookup, insert}
use flox_controller.Api.{InjectedEnv}
use flox_controller.Core.{Pod, Container, Volume, PersistentVolumeClaim}
use flox_controller.Client.{Client}
use flox_controller.Floxenv.{annotation_prefix, scheduling_gate_name, refs_from_annotations}
use flox_controller.PodGate.{has_gate}
use Containers.{env_name, inject_flox_env_into, mount_nix_store}

abbrev pub nix_build_annotation_prefix : String
nix_build_annotation_prefix = "flox.seedmatic.io/nix-build."

-- The webhook's fields. Without a client it reads no environment and ensures no claim. `must_parse` is
-- Kubernetes' `resource.MustParse`: the panic on a text that is no quantity, if it is none, which the
-- webhook's server answers as an error.
pub record PodFloxMutator : Type 1 where
  pub client : Client
  pub has_client : Bool
  pub flox_env_namespace : String
  pub nix_store_class : String
  pub nix_store_size : String
  pub must_parse : String → Option Error

-- The containers that opted in under a prefix, each with the value of its annotation.
unfoldable pub opted_in :
    String → (String → String) → Dict String String → Dict String String → Dict String String
unfolding has_prefix trim_prefix insert
opted_in prefix read [] found = found
opted_in prefix read ((k, v) ∷ annotations) found = opted_in prefix read annotations (
    if has_prefix k prefix && not (v == "")
    then insert (trim_prefix k prefix) (read v) found
    else found)

unfoldable pub env_of : Dict String String → Dict String String
unfolding opted_in env_name
env_of annotations = opted_in annotation_prefix env_name annotations []

unfoldable pub nix_build_targets : Dict String String → Dict String String
unfolding opted_in
nix_build_targets annotations = opted_in nix_build_annotation_prefix (λ v. v) annotations []

unfoldable pub map_containers : (Container → Container) → List Container → List Container
map_containers f [] = []
map_containers f (c ∷ cs) = f c ∷ map_containers f cs

-- The two loops over the containers, init containers first.
unfoldable pub each_container : (Container → Container) → Pod → Pod
unfolding map_containers
each_container f pod = record pod {
  spec = record (pod.spec) {
    init_containers = map_containers f pod.spec.init_containers;
    containers = map_containers f pod.spec.containers;
  };
}

unfoldable pub append_gate : List String → List String
append_gate [] = scheduling_gate_name ∷ []
append_gate (g ∷ gates) = g ∷ append_gate gates

unfoldable pub add_gate : Pod → Pod
unfolding append_gate
add_gate pod = record pod {
  spec = record (pod.spec) { scheduling_gates = append_gate pod.spec.scheduling_gates };
}

unfoldable pub has_volume : List Volume → String → Bool
has_volume [] name = false
has_volume (v ∷ volumes) name = if v.name == name then true else has_volume volumes name

unfoldable pub append_volume : List Volume → Volume → List Volume
append_volume [] w = w ∷ []
append_volume (v ∷ volumes) w = v ∷ append_volume volumes w

-- The pod with a volume for the claim, unless it has a volume of that name.
unfoldable pub add_volume : Pod → String → Pod
unfolding has_volume append_volume
add_volume pod pvc_name = if has_volume pod.spec.volumes pvc_name then pod else record pod {
  spec = record (pod.spec) {
    volumes =
        append_volume pod.spec.volumes (record { name = pvc_name; claim_name = some pvc_name });
  };
}

-- A container that a map names is changed with what the map holds for it.
unfoldable pub at_target :
    (Container → String → Container) → Dict String String → Container → Container
unfolding lookup
at_target f targets c = elim (lookup c.name targets) [ none ↦ c | some v ↦ f c v ]

module _ (i : PodFloxMutator) where
  open i use {client, has_client, flox_env_namespace, nix_store_class, nix_store_size, must_parse}

  -- The loop over the environments that are named. One that cannot be read injects nothing.
  unfoldable pub injects_of :
      client.State
      → Dict String String
      → Dict String (List InjectedEnv)
      → Dict String (List InjectedEnv)
  unfolding lookup insert
  injects_of s [] out = out
  injects_of s ((container, name) ∷ envs) out = injects_of s envs (elim (lookup name out) [
    | some done ↦ out
    | none ↦ elim (client.get_env s flox_env_namespace name) [
      | err e ↦ insert name [] out
      | ok env ↦ insert name env.spec.inject out
    ]
  ])

  unfoldable pub resolve_injects :
      client.State → Dict String String → Dict String (List InjectedEnv)
  unfolding injects_of
  resolve_injects s envs =
      if not has_client then [] else if flox_env_namespace == "" then [] else injects_of s envs []

  unfoldable pub inject_flox_env : client.State → Pod → Pod
  unfolding env_of resolve_injects each_container inject_flox_env_into
  inject_flox_env s pod =
      let envs = env_of pod.annotations in
      each_container (inject_flox_env_into envs (resolve_injects s envs)) pod

  -- `injectFloxWait`
  unfoldable pub inject_flox_wait : client.State → Pod → Pod
  unfolding add_gate
  inject_flox_wait s pod =
      if is_nil (refs_from_annotations pod.annotations)
      then pod
      else (let injected = inject_flox_env s pod in
          if not (injected.spec.node_name == "")
          then injected
          else if has_gate injected
          then injected
          else add_gate injected)

  unfoldable pub claim_size : String
  claim_size = if nix_store_size == "" then "30Gi" else nix_store_size

  unfoldable pub nix_store_claim : String → String → PersistentVolumeClaim
  unfolding claim_size
  nix_store_claim namespace name = record {
    name = name;
    namespace = namespace;
    access_modes = "ReadWriteOnce" ∷ [];
    storage_class = if not (nix_store_class == "") then some nix_store_class else none;
    storage = claim_size;
  }

  unfoldable pub ensure_nix_store_pvc : client.State → String → String → Option Error × client.State
  unfolding nix_store_claim claim_size
  ensure_nix_store_pvc s namespace name =
      if not has_client then (none, s) else elim (must_parse claim_size) [
        | some panic ↦ (some panic, s)
        | none ↦
            let (created, s') = client.create_claim s (nix_store_claim namespace name) in
            elim created [
              | ok claim ↦ (none, s')
              | err e ↦
                  if is_already_exists e
                  then (none, s')
                  else (some (wrap ("ensure nix-store PVC " <> (namespace <> ("/" <> name))) e), s')
            ]
      ]

  -- The loop over the claims that the targets name, each once.
  unfoldable pub ensure_volumes :
      client.State → Pod → Dict String String → List String → Option Error × Pod × client.State
  ensure_volumes s pod [] ensured = (none, pod, s)
  ensure_volumes s pod ((container, pvc_name) ∷ targets) ensured =
      let (failure, s') = ensure_nix_store_pvc s pod.namespace pvc_name in
      let after = ensure_volumes s' (add_volume pod pvc_name) targets (pvc_name ∷ ensured) in
      let skip = ensure_volumes s pod targets ensured in
      elim (contains ensured pvc_name) [
        | true ↦ skip
        | false ↦ elim failure [ some e ↦ (some e, pod, s') | none ↦ after ]
      ]

  -- `injectNixBuild`
  unfoldable pub inject_nix_build : client.State → Pod → Option Error × Pod × client.State
  inject_nix_build s pod =
      let targets = nix_build_targets pod.annotations in
      if is_nil targets
      then (none, pod, s)
      else (let (failure, pod', s') = ensure_volumes s pod targets [] in
          elim failure [
            | some e ↦ (some e, pod', s')
            | none ↦ (none, each_container (at_target mount_nix_store targets) pod', s')
          ])

  -- `Default`: the error, the pod and the state.
  unfoldable pub default : client.State → Pod → Option Error × Pod × client.State
  default s pod = inject_nix_build s (inject_flox_wait s pod)
