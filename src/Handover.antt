-- ===== src/Handover.antt =====
-- From the node that realises an environment to the pod that waits for it: floxenv_controller.go and
-- podgate_controller.go, whose `SetupWithManager` has each changed environment mapped to the pods
-- by `gatedPodsForEnv`.
use flox_controller.Prelude.{
  ℕ, suc, String, true, false, not, some, List, [], ◌∷◌, ◌==◌, string_eq, nat_eq, contains, ok,
  error_of, if◌then◌else◌, ◌≡◌, ◌≢◌, refl, sym, ap, ◌∙◌, arith, ◌⊎◌, inl, inr, Bool-cases,
  path_of_eq, eq_self,
}
use flox_controller.Api.{FloxEnv, FloxEnvSpec, NodeRealization}
use flox_controller.Core.{Pod}
use flox_controller.Client.{Client, NamespacedName, finish}
use flox_controller.Conditions.{IsLawful}
use flox_controller.Floxenv.{EnvRef, ref_eq, refs_from_annotations}
use flox_controller.Floxenv.Refs.{contains-refs_from_annotations}
use flox_controller.EnvController.Types.{Reconciler}
use flox_controller.EnvController.Status.{realized_here, already_realized}
use flox_controller.EnvController.Settling.{IsQuiet}
use flox_controller.EnvController.Progress.{Its, IsServed}
use flox_controller.EnvController.Queue.{work, work_lem}
use flox_controller.PodGate.{has_gate, effective_folder, resolve_flox_env, gated_pods_for_env}
use flox_controller.PodGate
use flox_controller.PodGate.Nodes.{realized_at, realized_on, all_realized_on}
use flox_controller.PodGate.Release.{reconcile_live}
use flox_controller.PodGate.Waiters.{request_eq, some_pod_waits, contains-gated_pods_for_env}

realized_at-realized_here :
    (node : String) (generation : ℕ) (realized : List NodeRealization)
    → realized_here node generation realized ≡ true
    → realized_at generation realized node ≡ true
unfolding realized_here
realized_at-realized_here node generation [] h = h
realized_at-realized_here node generation (nr ∷ realized) h =
    ground (arith, realized_at-realized_here node generation realized)

-- What counts as realised for the node counts as realised on it for the gate.
realized_on-already_realized :
    (node : String) (env : FloxEnv) → already_realized node env ≡ true → realized_on env node ≡ true
unfolding already_realized
realized_on-already_realized node env h =
    ground (arith, realized_at-realized_here node env.generation env.status.realized)

-- The pod is one of the pods.
abbrev pub Lists : List Pod → Pod → Type 0
Lists [] pod = ⊥
Lists (p ∷ pods) pod = (p ≡ pod) ⊎ Lists pods pod

abbrev pub request_of : Pod → NamespacedName
request_of pod = record { namespace = pod.namespace; name = pod.name }

some_pod_waits-Lists :
    (target : EnvRef) (pods : List Pod) (pod : Pod)
    → Lists pods pod
    → has_gate pod ≡ true
    → contains (refs_from_annotations pod.annotations) target ≡ true
    → some_pod_waits target pods (request_of pod) ≡ true
some_pod_waits-Lists target [] pod l gated named = absurd l
some_pod_waits-Lists target (p ∷ pods) pod (inl same) gated named =
    let waits = sym (contains-refs_from_annotations pod.annotations target) ∙ named in
    rw same (rw (eq_self (request_of pod), gated, waits) refl)
some_pod_waits-Lists target (p ∷ pods) pod (inr l) gated named =
    ground (arith, some_pod_waits-Lists target pods pod l gated named)

ne_of_differ : (a b : EnvRef) → (a == b) ≡ false → a ≢ b
ne_of_differ a b h e = let bad : true ≡ false = sym (eq_self b) ∙ (rw e at h) in cc

-- The references other than one are realised on the node.
abbrev pub OthersRealized : (c : Client) → c.State → String → EnvRef → List EnvRef → Type 0
OthersRealized c s n target refs =
    (ref : EnvRef)
    → contains refs ref ≡ true
    → ref ≢ target
    → all_realized_on c s (ref ∷ []) n ≡ true

module _ (c : Client) (s : c.State) (n : String) (target : EnvRef) (env : FloxEnv) where
  all_realized_on-others :
      (refs : List EnvRef)
      → resolve_flox_env c s target ≡ ok (some env)
      → realized_on env n ≡ true
      → OthersRealized c s n target refs
      → all_realized_on c s refs n ≡ true
  all_realized_on-others [] own here others = refl
  all_realized_on-others (ref ∷ refs) own here others =
      let rest = all_realized_on-others refs own here (λ q l ne. others q (ground arith) ne) in
      elim (Bool-cases (ref == target)) [
        | inl same ↦ rw (path_of_eq ref target same) (rw own (rw here rest))
        | inr differ ↦
            let first = others ref (ground (arith, eq_self ref)) (ne_of_differ ref target differ) in
            rw rest first
      ]

  -- A change of the environment asks for a reconcile of the pod, which sends it without its gate.
  wakes_and_releases :
      (pods : List Pod) (pod : Pod) (ref : EnvRef) (refs : List EnvRef)
      → record { folder = effective_folder env; name = env.name } ≡ target
      → resolve_flox_env c s target ≡ ok (some env)
      → realized_on env n ≡ true
      → c.list_pods s ≡ ok pods
      → Lists pods pod
      → c.get_pod s pod.namespace pod.name ≡ ok pod
      → has_gate pod ≡ true
      → refs_from_annotations pod.annotations ≡ ref ∷ refs
      → contains (ref ∷ refs) target ≡ true
      → OthersRealized c s n target (ref ∷ refs)
      → (contains (gated_pods_for_env c s env) (request_of pod) ≡ true)
        × (sent : Pod) × (has_gate sent ≡ false)
        × (PodGate.reconcile c s (request_of pod)
            ≡ finish (error_of (c.update_pod s sent).0) (c.update_pod s sent).1)
  wakes_and_releases pods pod ref refs its own here listed l found gated names named others =
      let (sent, ungated, released) =
        reconcile_live c s (request_of pod) pod ref refs n found gated names
          (all_realized_on-others (ref ∷ refs) own here others) in
      (
        contains-gated_pods_for_env c s env pods (request_of pod) listed
            ∙ ap (λ t. some_pod_waits t pods (request_of pod)) its
            ∙ some_pod_waits-Lists target pods pod l gated (rw names named),
        sent,
        ungated,
        released,
      )

-- The coordinate of an environment of that name and specification.
abbrev pub coordinate : NamespacedName → FloxEnvSpec → EnvRef
coordinate req spec = record {
  folder = if not (spec.folder == "") then spec.folder else req.namespace;
  name = req.name;
}

module _ (r : Reconciler) (req : NamespacedName) (spec : FloxEnvSpec) (I : r.client.State → Type 0)
    (served : IsServed r req spec I) (quiet : IsQuiet r.client)
    (lawful : IsLawful r.conditions) where
  coordinate-Its :
      (env : FloxEnv)
      → Its req spec env
      → record { folder = effective_folder env; name = env.name } ≡ coordinate req spec
  unfolding effective_folder
  coordinate-Its env its = rw (its.0, its.1, its.2) refl

  -- Through the work queue an environment that is due is stored as realised on the node, and then a
  -- pod that waits for it is asked for, and its reconcile sends it without the gate. The pod names
  -- the environment, and the other environments that it names are realised on the node. No other
  -- environment has the coordinate, the pods and the environments can be read, and the rest is as
  -- for the work queue.
  pub work-released :
      (fuel : ℕ) (s : r.client.State) (env : FloxEnv) (pods : List Pod) (pod : Pod) (ref : EnvRef)
      (refs : List EnvRef)
      → I s
      → env.spec ≡ spec
      → r.client.get_env s req.namespace req.name ≡ ok env
      → already_realized r.node_name env ≡ false
      → ((e : FloxEnv)
          → r.client.get_env (work r req (suc fuel) s).state req.namespace req.name ≡ ok e
          → resolve_flox_env r.client (work r req (suc fuel) s).state (coordinate req spec)
            ≡ ok (some e))
      → r.client.list_pods (work r req (suc fuel) s).state ≡ ok pods
      → Lists pods pod
      → r.client.get_pod (work r req (suc fuel) s).state pod.namespace pod.name ≡ ok pod
      → has_gate pod ≡ true
      → refs_from_annotations pod.annotations ≡ ref ∷ refs
      → contains (ref ∷ refs) (coordinate req spec) ≡ true
      → OthersRealized r.client
          (work r req (suc fuel) s).state
          r.node_name
          (coordinate req spec)
          (ref ∷ refs)
      → (stored : FloxEnv) × (r.client.get_env
            (work r req (suc fuel) s).state
            req.namespace
            req.name
          ≡ ok stored)
        × (contains
              (gated_pods_for_env r.client (work r req (suc fuel) s).state stored)
              (request_of pod)
            ≡ true)
        × (sent : Pod) × (has_gate sent ≡ false)
        × (PodGate.reconcile r.client (work r req (suc fuel) s).state (request_of pod)
            ≡ finish
                (error_of (r.client.update_pod (work r req (suc fuel) s).state sent).0)
                (r.client.update_pod (work r req (suc fuel) s).state sent).1)
  work-released fuel s env pods pod ref refs i same found due own listed l got gated names named
        others =
      let s' : r.client.State = (work r req (suc fuel) s).state in
      let (fine, plain, stored, kept, done, ready, spec') =
        work_lem r req spec I served quiet lawful fuel s env i same found due in
      let id = quiet.get_named s' req.namespace req.name stored kept in
      let (asked, sent, ungated, released) =
        wakes_and_releases r.client s' r.node_name (coordinate req spec) stored pods pod ref refs
          (coordinate-Its stored (id.0, id.1, spec')) (own stored kept)
          (realized_on-already_realized r.node_name stored done) listed l got gated names named
          others in
      (stored, kept, asked, sent, ungated, released)
