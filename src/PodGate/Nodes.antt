-- ===== src/PodGate/Nodes.antt =====
-- The nodes that the loop over a pod's references leaves.
use flox_controller.Prelude.{
  ℕ, String, Bool, true, false, ◌&&◌, ◌||◌, Option, none, some, List, [], ◌∷◌, ◌==◌, string_eq,
  nat_eq, contains, is_nil, ok, err, Error, ◌≡◌, ◌≢◌, refl, arith, inl, inr, Result-cases,
  Option-cases,
}
use flox_controller.Api.{FloxEnv, NodeRealization}
use flox_controller.Client.{Client}
use flox_controller.Floxenv.{EnvRef}
use flox_controller.PodGate.{
  ready_nodes, ready_nodes_for_env, intersect, eligible, failed, find_env, resolve_flox_env,
  eligible_nodes,
}

-- The node has a realisation that is ready, at the given generation.
abbrev pub realized_at : ℕ → List NodeRealization → String → Bool
realized_at generation [] n = false
realized_at generation (nr ∷ realized) n =
    (nr.ready && nr.observed_generation == generation && n == nr.node)
    || realized_at generation realized n

-- The environment is realised on the node at its current generation.
abbrev pub realized_on : FloxEnv → String → Bool
realized_on env n = realized_at env.generation env.status.realized n

contains-ready_nodes :
    (generation : ℕ) (realized : List NodeRealization) (n : String)
    → contains (ready_nodes generation realized) n ≡ realized_at generation realized n
unfolding ready_nodes
contains-ready_nodes generation [] n = refl
contains-ready_nodes generation (nr ∷ realized) n =
    ground (arith, contains-ready_nodes generation realized n)

pub contains-ready_nodes_for_env :
    (env : FloxEnv) (n : String) → contains (ready_nodes_for_env env) n ≡ realized_on env n
unfolding ready_nodes_for_env
contains-ready_nodes_for_env env n = contains-ready_nodes env.generation env.status.realized n

contains-intersect :
    (a b : List String) (n : String) → contains (intersect a b) n ≡ (contains a n && contains b n)
unfolding intersect
contains-intersect [] b n = refl
contains-intersect (k ∷ a) b n = ground (arith, contains-intersect a b n)

module _ (c : Client) (s : c.State) where
  -- Every reference names an existing environment that is realised on the node.
  abbrev pub all_realized_on : List EnvRef → String → Bool
  all_realized_on [] n = true
  all_realized_on (ref ∷ refs) n =
      (elim (resolve_flox_env c s ref) [
        | err e ↦ false
        | ok none ↦ false
        | ok (some env) ↦ realized_on env n
      ])
      && all_realized_on refs n

  abbrev in_set : Option (List String) → String → Bool
  in_set none n = true
  in_set (some nodes) n = contains nodes n

  contains-eligible_nodes_from :
      (refs : List EnvRef) (old nodes : List String) (n : String)
      → eligible_nodes c s refs (some old) ≡ eligible nodes
      → contains nodes n ≡ (contains old n && all_realized_on refs n)
  unfolding eligible_nodes
  contains-eligible_nodes_from [] old nodes n h = ground arith
  contains-eligible_nodes_from (ref ∷ refs) old nodes n h =
      elim (Result-cases (resolve_flox_env c s ref)) [
        | inl (e, bad) ↦ cc (rw (bad, eligible_nodes) at h)
        | inr (none, missing) ↦ cc (rw (missing, eligible_nodes) at h)
        | inr (some env, found) ↦ rw found (
            ground (
              arith,
              rw (found, eligible_nodes) at h,
              contains-eligible_nodes_from refs (intersect old (ready_nodes_for_env env)) nodes n,
              contains-intersect old (ready_nodes_for_env env) n,
              contains-ready_nodes_for_env env n,
            ))
      ]

  -- The loop ends with exactly the nodes on which every reference is realised.
  pub contains-eligible_nodes :
      (ref : EnvRef) (refs : List EnvRef) (nodes : List String) (n : String)
      → eligible_nodes c s (ref ∷ refs) none ≡ eligible nodes
      → contains nodes n ≡ all_realized_on (ref ∷ refs) n
  unfolding eligible_nodes
  contains-eligible_nodes ref refs nodes n h = elim (Result-cases (resolve_flox_env c s ref)) [
    | inl (e, bad) ↦ cc (rw (bad, eligible_nodes) at h)
    | inr (none, missing) ↦ cc (rw (missing, eligible_nodes) at h)
    | inr (some env, found) ↦ rw found (
        ground (
          arith,
          rw (found, eligible_nodes) at h,
          contains-eligible_nodes_from refs (ready_nodes_for_env env) nodes n,
          contains-ready_nodes_for_env env n,
        ))
  ]

  -- A set of nodes that the loop ends with is not empty.
  pub eligible_nodes-ne-nil :
      (refs : List EnvRef) (old nodes : List String)
      → is_nil old ≡ false
      → eligible_nodes c s refs (some old) ≡ eligible nodes
      → is_nil nodes ≡ false
  unfolding eligible_nodes
  eligible_nodes-ne-nil [] old nodes f h = ground arith
  eligible_nodes-ne-nil (ref ∷ refs) old nodes f h =
      elim (Result-cases (resolve_flox_env c s ref)) [
        | inl (e, bad) ↦ cc (rw (bad, eligible_nodes) at h)
        | inr (none, missing) ↦ cc (rw (missing, eligible_nodes) at h)
        | inr (some env, found) ↦ ground (
          arith,
          rw (found, eligible_nodes) at h,
          eligible_nodes-ne-nil refs (intersect old (ready_nodes_for_env env)) nodes,
        )
      ]

  pub eligible_nodes-ne-nil_start :
      (ref : EnvRef) (refs : List EnvRef) (nodes : List String)
      → eligible_nodes c s (ref ∷ refs) none ≡ eligible nodes
      → is_nil nodes ≡ false
  unfolding eligible_nodes
  eligible_nodes-ne-nil_start ref refs nodes h = elim (Result-cases (resolve_flox_env c s ref)) [
    | inl (e, bad) ↦ cc (rw (bad, eligible_nodes) at h)
    | inr (none, missing) ↦ cc (rw (missing, eligible_nodes) at h)
    | inr (some env, found) ↦ ground (
      arith,
      rw (found, eligible_nodes) at h,
      eligible_nodes-ne-nil refs (ready_nodes_for_env env) nodes,
    )
  ]

  -- Where the references all exist and share a node, the loop ends with a set.
  pub eligible_nodes_complete_from :
      (refs : List EnvRef) (old : List String) (n : String)
      → contains old n ≡ true
      → all_realized_on refs n ≡ true
      → (nodes : List String) × (eligible_nodes c s refs (some old) ≡ eligible nodes)
  unfolding eligible_nodes
  eligible_nodes_complete_from [] old n m h = (old, refl)
  eligible_nodes_complete_from (ref ∷ refs) old n m h =
      elim (Result-cases (resolve_flox_env c s ref)) [
        | inl (e, bad) ↦ cc (rw bad at h)
        | inr (none, missing) ↦ cc (rw missing at h)
        | inr (some env, found) ↦
            rw (found, eligible_nodes)
              (ground (
                arith,
                rw found at h,
                contains-intersect old (ready_nodes_for_env env) n,
                contains-ready_nodes_for_env env n,
                eligible_nodes_complete_from refs (intersect old (ready_nodes_for_env env)) n,
              ))
      ]

  pub eligible_nodes_complete :
      (ref : EnvRef) (refs : List EnvRef) (n : String)
      → all_realized_on (ref ∷ refs) n ≡ true
      → (nodes : List String) × (eligible_nodes c s (ref ∷ refs) none ≡ eligible nodes)
  unfolding eligible_nodes
  eligible_nodes_complete ref refs n h = elim (Result-cases (resolve_flox_env c s ref)) [
    | inl (e, bad) ↦ cc (rw bad at h)
    | inr (none, missing) ↦ cc (rw missing at h)
    | inr (some env, found) ↦
        rw (found, eligible_nodes)
          (ground (
            arith,
            rw found at h,
            contains-ready_nodes_for_env env n,
            eligible_nodes_complete_from refs (ready_nodes_for_env env) n,
          ))
  ]

  pub eligible_nodes-ne-failed :
      (envs : List FloxEnv)
      → c.list_envs s ≡ ok envs
      → (refs : List EnvRef) (sofar : Option (List String)) (e : Error)
      → eligible_nodes c s refs sofar ≢ failed e
  unfolding eligible_nodes resolve_flox_env
  eligible_nodes-ne-failed envs listed [] none e h = cc
  eligible_nodes-ne-failed envs listed [] (some nodes) e h = cc
  eligible_nodes-ne-failed envs listed (ref ∷ refs) none e h =
      elim (Option-cases (find_env ref envs)) [
        | inl absent ↦ ground (arith, listed, absent, h)
        | inr (env, found) ↦ ground (
          arith,
          listed,
          found,
          h,
          eligible_nodes-ne-failed envs listed refs (some (ready_nodes_for_env env)) e,
        )
      ]
  eligible_nodes-ne-failed envs listed (ref ∷ refs) (some old) e h =
      elim (Option-cases (find_env ref envs)) [
        | inl absent ↦ ground (arith, listed, absent, h)
        | inr (env, found) ↦ ground (
          arith,
          listed,
          found,
          h,
          eligible_nodes-ne-failed envs listed refs (some (intersect old (ready_nodes_for_env env)))
              e,
        )
      ]
