-- ===== src/Webhook/Gate.antt =====
-- Which pods the webhook gates, and which pods come out of the step as they went in.
use flox_controller.Prelude.{
  String, true, false, ◌&&◌, ◌||◌, not, List, [], ◌∷◌, ◌==◌, string_eq, if◌then◌else◌, contains,
  is_nil, ◌≡◌, refl, ap₂, arith, Bool-cases, inl, inr,
}
use flox_controller.Core.{Pod, Container}
use flox_controller.Floxenv.{refs_from_annotations, scheduling_gate_name}
use flox_controller.PodGate.{has_gate, has_gate_in}
use flox_controller.Webhook.{
  PodFloxMutator, map_containers, each_container, append_gate, add_gate, inject_flox_env,
  inject_flox_wait,
}

has_gate_in-append_gate : (gates : List String) → has_gate_in (append_gate gates) ≡ true
unfolding has_gate_in append_gate
has_gate_in-append_gate [] = ground arith
has_gate_in-append_gate (g ∷ gates) = ground (arith, has_gate_in-append_gate gates)

contains-append_gate :
    (gates : List String) (g : String)
    → contains (append_gate gates) g ≡ (contains gates g || g == scheduling_gate_name)
unfolding append_gate
contains-append_gate [] g = ground arith
contains-append_gate (h ∷ gates) g = ground (arith, contains-append_gate gates g)

contains-scheduling_gate :
    (gates : List String) → contains gates scheduling_gate_name ≡ has_gate_in gates
unfolding has_gate_in
contains-scheduling_gate [] = refl
contains-scheduling_gate (g ∷ gates) = ground (arith, contains-scheduling_gate gates)

module _ (i : PodFloxMutator) (s : i.client.State) where
  -- The admitted pod is gated exactly when it was, or when it names an environment and has no node
  -- yet. Its other gates are those that it had.
  pub inject_flox_wait_gates :
      (pod : Pod)
      → (has_gate (inject_flox_wait i s pod) ≡ (
          has_gate pod
          || (not (is_nil (refs_from_annotations pod.annotations)) && pod.spec.node_name == "")))
        × ((g : String)
            → contains (inject_flox_wait i s pod).spec.scheduling_gates g ≡ (
                if g == scheduling_gate_name
                then has_gate (inject_flox_wait i s pod)
                else contains pod.spec.scheduling_gates g))
  unfolding inject_flox_wait inject_flox_env each_container add_gate has_gate
  inject_flox_wait_gates pod = (
    ground (arith, has_gate_in-append_gate pod.spec.scheduling_gates),
    λ g. ground (
      arith,
      contains-append_gate pod.spec.scheduling_gates g,
      contains-scheduling_gate pod.spec.scheduling_gates,
      has_gate_in-append_gate pod.spec.scheduling_gates,
    ),
  )

map_containers_idem :
    (f : Container → Container) (cs : List Container)
    → ((c : Container) → f (f c) ≡ f c)
    → map_containers f (map_containers f cs) ≡ map_containers f cs
unfolding map_containers
map_containers_idem f [] h = refl
map_containers_idem f (c ∷ cs) h = ap₂ ◌∷◌ (h c) (map_containers_idem f cs h)

pub each_container_idem :
    (f : Container → Container) (pod : Pod)
    → ((c : Container) → f (f c) ≡ f c)
    → each_container f (each_container f pod) ≡ each_container f pod
unfolding each_container
each_container_idem f pod h =
    rw (
      map_containers_idem f pod.spec.init_containers h,
      map_containers_idem f pod.spec.containers h,
    )

module _ (i : PodFloxMutator) (s : i.client.State) where
  pub has_gate-add_gate : (pod : Pod) → has_gate (add_gate pod) ≡ true
  unfolding has_gate add_gate
  has_gate-add_gate pod = has_gate_in-append_gate pod.spec.scheduling_gates

  -- The parts that an injection leaves alone.
  inject_flox_env_keeps :
      (pod : Pod)
      → ((inject_flox_env i s pod).annotations ≡ pod.annotations)
        × ((inject_flox_env i s pod).spec.node_name ≡ pod.spec.node_name)
        × ((inject_flox_env i s pod).spec.scheduling_gates ≡ pod.spec.scheduling_gates)
  unfolding inject_flox_env
  inject_flox_env_keeps pod = (refl, refl, refl)

  add_gate_keeps :
      (pod : Pod)
      → ((add_gate pod).annotations ≡ pod.annotations)
        × ((add_gate pod).spec.node_name ≡ pod.spec.node_name)
  unfolding add_gate
  add_gate_keeps pod = (refl, refl)

  -- A pod that has been through the step, as it comes out of it.
  unfoldable pub IsAdmitted : Pod → Type 0
  IsAdmitted pod = inject_flox_wait i s pod ≡ pod

  pub IsAdmitted-plain :
      (pod : Pod) → is_nil (refs_from_annotations pod.annotations) ≡ true → IsAdmitted pod
  unfolding inject_flox_wait IsAdmitted
  IsAdmitted-plain pod e = rw (inject_flox_wait, e)

  pub IsAdmitted-scheduled :
      (pod : Pod)
      → inject_flox_env i s pod ≡ pod
      → (pod.spec.node_name == "") ≡ false
      → IsAdmitted pod
  unfolding inject_flox_wait IsAdmitted
  IsAdmitted-scheduled pod e n =
      elim (Bool-cases (is_nil (refs_from_annotations pod.annotations))) [
        | inl y ↦ rw (inject_flox_wait, y)
        | inr z ↦ rw (inject_flox_wait, z, e, n)
      ]

  pub IsAdmitted-gated :
      (pod : Pod) → inject_flox_env i s pod ≡ pod → has_gate pod ≡ true → IsAdmitted pod
  unfolding inject_flox_wait IsAdmitted
  IsAdmitted-gated pod e g = elim (Bool-cases (is_nil (refs_from_annotations pod.annotations))) [
    | inl y ↦ rw (inject_flox_wait, y)
    | inr z ↦ elim (Bool-cases (pod.spec.node_name == "")) [
      | inl n ↦ rw (inject_flox_wait, z, e, n, g)
      | inr n ↦ rw (inject_flox_wait, z, e, n)
    ]
  ]

  pub inject_flox_wait-scheduled :
      (pod : Pod)
      → is_nil (refs_from_annotations pod.annotations) ≡ false
      → (pod.spec.node_name == "") ≡ false
      → inject_flox_wait i s pod ≡ inject_flox_env i s pod
  unfolding inject_flox_wait
  inject_flox_wait-scheduled pod z n = ground (arith, inject_flox_env_keeps pod)

  pub inject_flox_wait-gated :
      (pod : Pod)
      → is_nil (refs_from_annotations pod.annotations) ≡ false
      → has_gate (inject_flox_env i s pod) ≡ true
      → inject_flox_wait i s pod ≡ inject_flox_env i s pod
  unfolding inject_flox_wait
  inject_flox_wait-gated pod z g = ground arith

  pub inject_flox_wait-new :
      (pod : Pod)
      → is_nil (refs_from_annotations pod.annotations) ≡ false
      → (pod.spec.node_name == "") ≡ true
      → has_gate (inject_flox_env i s pod) ≡ false
      → inject_flox_wait i s pod ≡ add_gate (inject_flox_env i s pod)
  unfolding inject_flox_wait
  inject_flox_wait-new pod z n g = ground (arith, inject_flox_env_keeps pod)
