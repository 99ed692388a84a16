-- ===== src/Tests/Gate.antt =====
-- A gated pod that consumes two environments, and the gate's theorems on it.
use flox_controller.Prelude.{
  String, Bool, true, false, none, some, List, [], ◌∷◌, ◌==◌, string_eq, nat_eq, contains,
  has_prefix, split_last, error_of, ◌≡◌, ◌≢◌, refl, ap, ◌⊎◌, ◌&&◌,
}
use flox_controller.Prelude.Order.{str_ltb}
use flox_controller.Api.{FloxEnv, NodeRealization}
use flox_controller.Core.{Pod, NodeSelectorRequirement}
use flox_controller.Client.{NamespacedName, finish}
use flox_controller.Floxenv.{EnvRef, ref_eq, refs_from_annotations}
use flox_controller.PodGate.{
  has_gate, effective_folder, hostname_in, required_terms, narrow_to_nodes, resolve_flox_env,
  reconcile, gated_pods_for_env,
}
use flox_controller.PodGate.Nodes.{all_realized_on}
use flox_controller.PodGate.Narrowing.{node_matches, narrow_to_nodes_reordered}
use flox_controller.PodGate.Release.{reconcile_safe, reconcile_live}
use flox_controller.PodGate.Waiters.{request_eq, some_pod_waits, contains-gated_pods_for_env}
use flox_controller.Tests.Memory.{World, memory}

abbrev pub realized_on_node : String → NodeRealization
realized_on_node node = record {
  node = node;
  ready = true;
  store_path = "/nix/store/x";
  env_path = "/env";
  gcroot_path = "/gcroot";
  observed_generation = 2;
}

abbrev pub env_with : String → List NodeRealization → FloxEnv
env_with name realized = record {
  meta = record {
    name = name;
    namespace = "networking";
    generation = 2;
    annotations = [];
    labels = [];
  };
  spec = record {
    consumption = "";
    manifest = none;
    update = none;
    folder = "";
    depends_on = [];
    inject = [];
  };
  status = record {
    lock = "";
    relock_token = "";
    resolved = [];
    realized = realized;
    conditions = [];
  };
}

abbrev web : FloxEnv
web = env_with "web" (realized_on_node "n1" ∷ realized_on_node "n2" ∷ [])

abbrev tools : FloxEnv
tools = env_with "tools" (realized_on_node "n2" ∷ [])

abbrev pub waiting_pod : Pod
waiting_pod = record {
  meta = record {
    name = "p";
    namespace = "apps";
    generation = 1;
    annotations =
        ("flox.seedmatic.io/environment.main", "networking/web")
        ∷ ("flox.seedmatic.io/environment.init", "tools")
        ∷ [];
    labels = [];
  };
  spec = record {
    node_name = "";
    scheduling_gates = "flox.seedmatic.io/env-ready" ∷ "other" ∷ [];
    affinity = none;
    volumes = [];
    init_containers = [];
    containers = [];
  };
}

abbrev world : World
world = record {
  envs = web ∷ tools ∷ [];
  catalogs = [];
  pods = waiting_pod ∷ [];
  workloads = [];
  claims = [];
}

-- The environment `tools` is realised nowhere yet.
abbrev early : World
early = record world { envs = web ∷ env_with "tools" [] ∷ [] }

abbrev request : NamespacedName
request = record { namespace = "apps"; name = "p" }

abbrev ref_tools : EnvRef
ref_tools = record { folder = "networking"; name = "tools" }

abbrev ref_web : EnvRef
ref_web = record { folder = "networking"; name = "web" }

waiting_pod-refs : refs_from_annotations waiting_pod.annotations ≡ ref_tools ∷ ref_web ∷ []
unfolding refs_from_annotations string_eq nat_eq has_prefix ref_eq split_last str_ltb
waiting_pod-refs = refl

abbrev on_n2 : NodeSelectorRequirement → Bool
on_n2 r = contains r.values "n2"

reconcile_safe_example :
    ((reconcile memory world request).state ≡ world)
    ⊎ ((sent : Pod) × ((reconcile memory world request).state ≡ (memory.update_pod world sent).1)
        × (has_gate sent ≡ false)
        × (node_matches on_n2 on_n2 (required_terms sent.spec.affinity) ≡ (
            node_matches on_n2 on_n2 none
            && all_realized_on memory world (ref_tools ∷ ref_web ∷ []) "n2")))
unfolding string_eq required_terms
reconcile_safe_example =
    reconcile_safe memory world request waiting_pod ref_tools (ref_web ∷ []) "n2" on_n2 on_n2 refl
      waiting_pod-refs tt λ nodes. refl

both_realized : all_realized_on memory world (ref_tools ∷ ref_web ∷ []) "n2" ≡ true
unfolding resolve_flox_env effective_folder string_eq nat_eq
both_realized = refl

reconcile_live_example :
    (sent : Pod) × (has_gate sent ≡ false)
    × (reconcile memory world request
        ≡ finish (error_of (memory.update_pod world sent).0) (memory.update_pod world sent).1)
unfolding has_gate string_eq
reconcile_live_example =
    reconcile_live memory world request waiting_pod ref_tools (ref_web ∷ []) "n2" refl refl
      waiting_pod-refs both_realized

nowhere : (n : String) → all_realized_on memory early (ref_tools ∷ ref_web ∷ []) n ≡ false
unfolding resolve_flox_env effective_folder string_eq nat_eq
nowhere n = refl

contains-gated_pods_for_env_example :
    contains (gated_pods_for_env memory world web) request
    ≡ some_pod_waits (record { folder = effective_folder web; name = "web" }) world.pods request
contains-gated_pods_for_env_example =
    contains-gated_pods_for_env memory world web world.pods request refl

distinct_nodes : ◌≢◌ {A = String} "n1" "n2"
unfolding string_eq
distinct_nodes e = let apart : true ≡ false = ap (λ (x : String). x == "n1") e in cc

narrow_to_nodes_reordered_example :
    required_terms
      (narrow_to_nodes
        (narrow_to_nodes waiting_pod ("n1" ∷ "n2" ∷ []))
        ("n2" ∷ "n1" ∷ [])).spec.affinity
    ≡ some (
        record {
          match_expressions = hostname_in ("n1" ∷ "n2" ∷ []) ∷ hostname_in ("n2" ∷ "n1" ∷ []) ∷ [];
          match_fields = [];
        }
        ∷ [])
unfolding required_terms
narrow_to_nodes_reordered_example =
    narrow_to_nodes_reordered waiting_pod "n1" "n2" distinct_nodes refl

abbrev empty_term_pod : Pod
empty_term_pod = record waiting_pod {
  spec = record (waiting_pod.spec) {
    affinity = some (record {
      node_affinity =
          some (record {
            required = some (record { match_expressions = []; match_fields = [] } ∷ []);
          });
    });
  };
}
