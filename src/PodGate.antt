-- ===== src/PodGate.antt =====
-- internal/controller/podgate_controller.go: the scheduling gate of a pod is removed once all its
-- environments are realised on some node. A Go set is a list without duplicates, in the order of
-- an iteration over it.
pub mod Nodes
pub mod Narrowing
pub mod Release
pub mod Waiters
use flox_controller.Prelude.{
  ℕ, String, Bool, true, false, ◌&&◌, ◌||◌, not, Option, none, some, List, [], ◌∷◌, ◌==◌, string_eq,
  nat_eq, if◌then◌else◌, contains, is_nil, Result, ok, err, Error, error_of, ignore_not_found,
}
use flox_controller.Api.{FloxEnv, NodeRealization}
use flox_controller.Core.{Pod, NodeSelectorRequirement, NodeSelectorTerm, Affinity}
use flox_controller.Client.{Client, NamespacedName, Outcome, finish}
use flox_controller.Floxenv.{EnvRef, ref_eq, refs_from_annotations, scheduling_gate_name}

abbrev pub hostname_label : String
hostname_label = "kubernetes.io/hostname"

-- The loop of `hasGate`.
unfoldable pub has_gate_in : List String → Bool
has_gate_in [] = false
has_gate_in (g ∷ gates) = g == scheduling_gate_name || has_gate_in gates

unfoldable pub has_gate : Pod → Bool
unfolding has_gate_in
has_gate pod = has_gate_in pod.spec.scheduling_gates

unfoldable pub effective_folder : FloxEnv → String
effective_folder env = if not (env.spec.folder == "") then env.spec.folder else env.namespace

add_node : String → List String → List String
add_node n nodes = if contains nodes n then nodes else n ∷ nodes

ready_nodes : ℕ → List NodeRealization → List String
unfolding add_node
ready_nodes generation [] = []
ready_nodes generation (nr ∷ realized) =
    let rest = ready_nodes generation realized in
    if nr.ready && nr.observed_generation == generation then add_node nr.node rest else rest

unfoldable pub ready_nodes_for_env : FloxEnv → List String
unfolding ready_nodes
ready_nodes_for_env env = ready_nodes env.generation env.status.realized

unfoldable pub intersect : List String → List String → List String
intersect [] b = []
intersect (k ∷ a) b = let rest = intersect a b in if contains b k then k ∷ rest else rest

pub equal_strings : List String → List String → Bool
equal_strings [] [] = true
equal_strings [] (y ∷ b) = false
equal_strings (x ∷ a) [] = false
equal_strings (x ∷ a) (y ∷ b) = x == y && equal_strings a b

pub has_requirement : List NodeSelectorRequirement → NodeSelectorRequirement → Bool
unfolding equal_strings
has_requirement [] want = false
has_requirement (e ∷ exprs) want =
    (e.key == want.key && e.operator == want.operator && equal_strings e.values want.values)
    || has_requirement exprs want

append_expression :
    List NodeSelectorRequirement → NodeSelectorRequirement → List NodeSelectorRequirement
append_expression [] req = req ∷ []
append_expression (e ∷ exprs) req = e ∷ append_expression exprs req

-- The loop over the terms that the pod has already.
pub narrow_terms : NodeSelectorRequirement → List NodeSelectorTerm → List NodeSelectorTerm
unfolding has_requirement append_expression
narrow_terms req [] = []
narrow_terms req (t ∷ terms) =
    (if has_requirement t.match_expressions req
      then t
      else record t { match_expressions = append_expression t.match_expressions req })
    ∷ narrow_terms req terms

abbrev pub hostname_in : List String → NodeSelectorRequirement
hostname_in nodes = record { key = hostname_label; operator = "In"; values = nodes }

-- The required terms of a pod, if it has any.
unfoldable pub required_terms : Option Affinity → Option (List NodeSelectorTerm)
required_terms none = none
required_terms (some a) = elim a.node_affinity [ none ↦ none | some na ↦ na.required ]

pub narrowed : NodeSelectorRequirement → Option (List NodeSelectorTerm) → List NodeSelectorTerm
unfolding narrow_terms
narrowed req none = record { match_expressions = req ∷ []; match_fields = [] } ∷ []
narrowed req (some []) = record { match_expressions = req ∷ []; match_fields = [] } ∷ []
narrowed req (some (t ∷ terms)) = narrow_terms req (t ∷ terms)

pub narrow_to_nodes : Pod → List String → Pod
unfolding narrowed required_terms
narrow_to_nodes pod nodes = record pod {
  spec = record (pod.spec) {
    affinity = some (record {
      node_affinity = some (record {
        required = some (narrowed (hostname_in nodes) (required_terms pod.spec.affinity));
      });
    });
  };
}

pub other_gates : List String → List String
other_gates [] = []
other_gates (g ∷ gates) =
    let rest = other_gates gates in if not (g == scheduling_gate_name) then g ∷ rest else rest

-- The pod that `release` sends.
pub released : Pod → List String → Pod
unfolding other_gates narrow_to_nodes
released pod nodes =
    let q = if is_nil nodes then pod else narrow_to_nodes pod nodes in
    record q { spec = record (q.spec) { scheduling_gates = other_gates q.spec.scheduling_gates } }

-- What the loop over the references finds: an error, a reference that is not ready yet, or the
-- nodes that all references share.
pub data Eligible : Type 0 where
  failed : Error → Eligible
  waiting : Eligible
  eligible : List String → Eligible

pub find_env : EnvRef → List FloxEnv → Option FloxEnv
find_env ref [] = none
find_env ref (env ∷ envs) =
    if effective_folder env == ref.folder && env.name == ref.name
    then some env
    else find_env ref envs

module _ (c : Client) where
  release : c.State → Pod → List String → Outcome c.State
  unfolding released
  release s pod nodes = let (r, s') = c.update_pod s (released pod nodes) in finish (error_of r) s'

  unfoldable pub resolve_flox_env : c.State → EnvRef → Result (Option FloxEnv)
  unfolding find_env
  resolve_flox_env s ref = elim (c.list_envs s) [ err e ↦ err e | ok envs ↦ ok (find_env ref envs) ]

  -- The loop; the nodes so far are none before the first reference.
  unfoldable pub eligible_nodes : c.State → List EnvRef → Option (List String) → Eligible
  eligible_nodes s [] none = eligible []
  eligible_nodes s [] (some nodes) = eligible nodes
  eligible_nodes s (ref ∷ refs) sofar = elim (resolve_flox_env s ref) [
    | err e ↦ failed e
    | ok none ↦ waiting
    | ok (some env) ↦
        let ready = ready_nodes_for_env env in
        let nodes : List String = elim sofar [ none ↦ ready | some old ↦ intersect old ready ] in
        elim (is_nil nodes) [ true ↦ waiting | false ↦ eligible_nodes s refs (some nodes) ]
  ]

  reconcile_gated : c.State → Pod → List EnvRef → Outcome c.State
  reconcile_gated s pod [] = release s pod []
  reconcile_gated s pod (ref ∷ refs) = elim (eligible_nodes s (ref ∷ refs) none) [
    | failed e ↦ finish (some e) s
    | waiting ↦ finish none s
    | eligible nodes ↦ release s pod nodes
  ]

  pub reconcile : c.State → NamespacedName → Outcome c.State
  unfolding reconcile_gated has_gate
  reconcile s req = elim (c.get_pod s req.namespace req.name) [
    | err e ↦ finish (ignore_not_found e) s
    | ok pod ↦
        if not (has_gate pod)
        then finish none s
        else reconcile_gated s pod (refs_from_annotations pod.annotations)
  ]

  waiters : EnvRef → List Pod → List NamespacedName
  waiters target [] = []
  waiters target (p ∷ pods) =
      let rest = waiters target pods in
      if has_gate p && contains (refs_from_annotations p.annotations) target
      then record { namespace = p.namespace; name = p.name } ∷ rest
      else rest

  -- `EnqueueRequestsFromMapFunc` calls it with a FloxEnv.
  pub gated_pods_for_env : c.State → FloxEnv → List NamespacedName
  unfolding waiters
  gated_pods_for_env s env = elim (c.list_pods s) [
    | err e ↦ []
    | ok pods ↦ waiters (record { folder = effective_folder env; name = env.name }) pods
  ]
