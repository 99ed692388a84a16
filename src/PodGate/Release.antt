-- ===== src/PodGate/Release.antt =====
-- What a reconcile of a gated pod sends to the API server.
use flox_controller.Prelude.{
  String, Bool, true, false, ◌&&◌, not, none, List, [], ◌∷◌, ◌==◌, string_eq, contains, is_nil, ok,
  Error, error_of, ◌≡◌, refl, ◌∙◌, arith, ◌⊎◌, inl, inr, Bool-cases, if◌then◌else◌,
}
use flox_controller.Api.{FloxEnv}
use flox_controller.Core.{Pod, NodeSelectorRequirement}
use flox_controller.Client.{Client, NamespacedName, finish}
use flox_controller.Floxenv.{EnvRef, refs_from_annotations, scheduling_gate_name}
use flox_controller.PodGate.{
  has_gate, has_gate_in, other_gates, released, hostname_in, required_terms, narrow_to_nodes,
  eligible_nodes, Eligible, failed, waiting, eligible, release, reconcile, reconcile_gated,
}
use flox_controller.PodGate.Nodes.{
  all_realized_on, contains-eligible_nodes, eligible_nodes-ne-nil_start, eligible_nodes_complete,
  eligible_nodes-ne-failed,
}
use flox_controller.PodGate.Narrowing.{node_matches, IsWellFormed, node_matches-narrow_to_nodes}

has_gate_in-other_gates : (gates : List String) → has_gate_in (other_gates gates) ≡ false
unfolding has_gate other_gates
has_gate_in-other_gates [] = refl
has_gate_in-other_gates (g ∷ gates) = ground (arith, has_gate_in-other_gates gates)

contains-other_gates :
    (gates : List String) (g : String)
    → contains (other_gates gates) g ≡ (contains gates g && not (g == scheduling_gate_name))
unfolding other_gates
contains-other_gates [] g = refl
contains-other_gates (h ∷ gates) g = ground (arith, contains-other_gates gates g)

-- The pod that is sent has lost the gate and no other; where there are nodes it is narrowed to
-- them, and where there are none its affinity is left alone.
pub released_lem :
    (pod : Pod) (nodes : List String)
    → (has_gate (released pod nodes) ≡ false)
      × ((g : String)
          → contains (released pod nodes).spec.scheduling_gates g
            ≡ (contains pod.spec.scheduling_gates g && not (g == scheduling_gate_name)))
      × ((released pod nodes).spec.affinity
          ≡ (if is_nil nodes then pod.spec.affinity else (narrow_to_nodes pod nodes).spec.affinity))
unfolding released has_gate
released_lem pod [] = (has_gate_in-other_gates _, contains-other_gates _, refl)
released_lem pod (n ∷ nodes) = (has_gate_in-other_gates _, contains-other_gates _, refl)

Eligible-cases :
    (r : Eligible)
    → ((e : Error) × (r ≡ failed e))
      ⊎ (r ≡ waiting)
      ⊎ ((nodes : List String) × (r ≡ eligible nodes))
Eligible-cases (failed e) = inl (e, refl)
Eligible-cases waiting = inr (inl refl)
Eligible-cases (eligible nodes) = inr (inr (nodes, refl))

has_gate-cases : (pod : Pod) → (has_gate pod ≡ true) ⊎ (has_gate pod ≡ false)
has_gate-cases pod = Bool-cases (has_gate pod)

module _ (c : Client) (s : c.State) (req : NamespacedName) (pod : Pod) where
  module _ (found : c.get_pod s req.namespace req.name ≡ ok pod) where
    reconcile-gated :
        (ref : EnvRef) (refs : List EnvRef)
        → has_gate pod ≡ true
        → refs_from_annotations pod.annotations ≡ ref ∷ refs
        → reconcile c s req ≡ reconcile_gated c s pod (ref ∷ refs)
    unfolding reconcile
    reconcile-gated ref refs gated named = rw (reconcile, found) (rw (gated, named))

    reconcile_ungated : has_gate pod ≡ false → reconcile c s req ≡ finish none s
    unfolding reconcile
    reconcile_ungated ungated = rw (reconcile, found) (rw ungated)

  node_matches-released :
      (nodes : List String) (host : String) (holds holds_field : NodeSelectorRequirement → Bool)
      → is_nil nodes ≡ false
      → IsWellFormed (required_terms pod.spec.affinity)
      → holds (hostname_in nodes) ≡ contains nodes host
      → node_matches holds holds_field (required_terms (released pod nodes).spec.affinity)
        ≡ (node_matches holds holds_field (required_terms pod.spec.affinity) && contains nodes host)
  node_matches-released nodes host holds holds_field full w is_in =
      rw ((released_lem pod nodes).2, full)
        (node_matches-narrow_to_nodes holds holds_field pod nodes w ∙ rw is_in)

  -- A gated pod that names environments is either left as it is, or sent without the gate and
  -- narrowed. In the second case a host satisfies its affinity exactly when it did before and
  -- every environment is realised on that host at its current generation. The pod's terms are
  -- such as the API server accepts, and `In` on the hostname label asks for membership.
  pub reconcile_safe :
      (ref : EnvRef) (refs : List EnvRef) (host : String)
      (holds holds_field : NodeSelectorRequirement → Bool)
      → c.get_pod s req.namespace req.name ≡ ok pod
      → refs_from_annotations pod.annotations ≡ ref ∷ refs
      → IsWellFormed (required_terms pod.spec.affinity)
      → ((nodes : List String) → holds (hostname_in nodes) ≡ contains nodes host)
      → ((reconcile c s req).state ≡ s)
        ⊎ ((sent : Pod) × ((reconcile c s req).state ≡ (c.update_pod s sent).1)
            × (has_gate sent ≡ false)
            × (node_matches holds holds_field (required_terms sent.spec.affinity) ≡ (
                node_matches holds holds_field (required_terms pod.spec.affinity)
                && all_realized_on c s (ref ∷ refs) host)))
  unfolding reconcile_gated release
  reconcile_safe ref refs host holds holds_field found named w is_in = elim (has_gate-cases pod) [
    | inr ungated ↦ inl (rw (reconcile_ungated found ungated))
    | inl gated ↦
        rw (reconcile-gated found ref refs gated named)
          (elim (Eligible-cases (eligible_nodes c s (ref ∷ refs) none)) [
            | inl (e, bad) ↦ inl (rw (reconcile_gated, bad))
            | inr (inl wait) ↦ inl (rw (reconcile_gated, wait))
            | inr (inr (nodes, ready)) ↦ inr (
                rw (reconcile_gated, ready)
                  (
                    released pod nodes,
                    refl,
                    (released_lem pod nodes).0,
                    node_matches-released nodes host holds holds_field
                          (eligible_nodes-ne-nil_start c s ref refs nodes ready) w (is_in nodes)
                        ∙ rw (contains-eligible_nodes c s ref refs nodes host ready),
                  ))
          ])
  ]

  -- Where every environment that a gated pod names is realised on some node, at its current
  -- generation, the reconcile sends the pod without its gate, and fails only if that update does.
  pub reconcile_live :
      (ref : EnvRef) (refs : List EnvRef) (n : String)
      → c.get_pod s req.namespace req.name ≡ ok pod
      → has_gate pod ≡ true
      → refs_from_annotations pod.annotations ≡ ref ∷ refs
      → all_realized_on c s (ref ∷ refs) n ≡ true
      → (sent : Pod) × (has_gate sent ≡ false)
        × (reconcile c s req ≡ finish (error_of (c.update_pod s sent).0) (c.update_pod s sent).1)
  unfolding reconcile_gated release
  reconcile_live ref refs n found gated named all =
      let (nodes, ready) = eligible_nodes_complete c s ref refs n all in
      (
        released pod nodes,
        (released_lem pod nodes).0,
        rw (reconcile-gated found ref refs gated named) (rw (reconcile_gated, ready)),
      )

  -- Where no node has all the environments that the pod names, each at its current generation, the
  -- pod is left as it is, without an error. The environments can be listed.
  pub reconcile_blocked :
      (ref : EnvRef) (refs : List EnvRef) (envs : List FloxEnv)
      → c.get_pod s req.namespace req.name ≡ ok pod
      → refs_from_annotations pod.annotations ≡ ref ∷ refs
      → c.list_envs s ≡ ok envs
      → ((n : String) → all_realized_on c s (ref ∷ refs) n ≡ false)
      → reconcile c s req ≡ finish none s
  unfolding reconcile_gated
  reconcile_blocked ref refs envs found named listed nowhere = elim (has_gate-cases pod) [
    | inr ungated ↦ reconcile_ungated found ungated
    | inl gated ↦
        rw (reconcile-gated found ref refs gated named)
          (elim (Eligible-cases (eligible_nodes c s (ref ∷ refs) none)) [
            | inl (e, bad) ↦
                absurd (eligible_nodes-ne-failed c s envs listed (ref ∷ refs) none e bad)
            | inr (inl wait) ↦ rw (reconcile_gated, wait)
            | inr (inr ([], ready)) ↦ cc (eligible_nodes-ne-nil_start c s ref refs [] ready)
            | inr (inr (n ∷ nodes, ready)) ↦
                ground (arith, contains-eligible_nodes c s ref refs (n ∷ nodes) n ready, nowhere n)
          ])
  ]
