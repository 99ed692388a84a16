-- ===== src/PodGate/Narrowing.antt =====
-- narrowToNodes against the scheduler's reading of required node affinity.
use flox_controller.Prelude.{
  String, Bool, true, false, ◌&&◌, ◌||◌, not, Option, none, some, List, [], ◌∷◌, string_eq, is_nil,
  All, ◌≡◌, ◌≢◌, refl, ap₂, arith,
}
use flox_controller.Core.{Pod, NodeSelectorRequirement, NodeSelectorTerm}
use flox_controller.PodGate.{
  equal_strings, has_requirement, append_expression, narrow_terms, hostname_in, required_terms,
  narrowed, narrow_to_nodes,
}

equal_strings-eq : (a b : List String) → equal_strings a b ≡ true → a ≡ b
unfolding equal_strings
equal_strings-eq [] [] h = refl
equal_strings-eq [] (y ∷ b) h = cc
equal_strings-eq (x ∷ a) [] h = cc
equal_strings-eq (x ∷ a) (y ∷ b) h = ground (arith, equal_strings-eq a b)

equal_strings_refl : (a : List String) → equal_strings a a ≡ true
unfolding equal_strings
equal_strings_refl [] = refl
equal_strings_refl (x ∷ a) = ground (arith, equal_strings_refl a)

has_requirement-append_expression :
    (exprs : List NodeSelectorRequirement) (req : NodeSelectorRequirement)
    → has_requirement (append_expression exprs req) req ≡ true
unfolding has_requirement append_expression
has_requirement-append_expression [] req = ground (arith, equal_strings_refl req.values)
has_requirement-append_expression (e ∷ exprs) req =
    ground (arith, has_requirement-append_expression exprs req)

-- A term that selects something, as the scheduler reads it.
abbrev HasRequirement : NodeSelectorTerm → Type 0
HasRequirement t = (is_nil t.match_expressions && is_nil t.match_fields) ≡ false

append_expression-ne-nil :
    (exprs : List NodeSelectorRequirement) (req : NodeSelectorRequirement)
    → is_nil (append_expression exprs req) ≡ false
unfolding append_expression
append_expression-ne-nil [] req = refl
append_expression-ne-nil (e ∷ exprs) req = refl

-- Required terms as the API server accepts them: none, or some, each with a requirement.
abbrev pub IsWellFormed : Option (List NodeSelectorTerm) → Type 0
IsWellFormed none = Unit
IsWellFormed (some []) = ⊥
IsWellFormed (some (t ∷ terms)) = All HasRequirement (t ∷ terms)

abbrev all_hold : (NodeSelectorRequirement → Bool) → List NodeSelectorRequirement → Bool
all_hold p [] = true
all_hold p (e ∷ exprs) = p e && all_hold p exprs

-- Whether a node meets a requirement on its labels, or on its fields.
module _ (holds holds_field : NodeSelectorRequirement → Bool) where
  -- A term with no requirement at all selects nothing.
  abbrev pub term_matches : NodeSelectorTerm → Bool
  term_matches t =
      not (is_nil t.match_expressions && is_nil t.match_fields)
      && all_hold holds t.match_expressions
      && all_hold holds_field t.match_fields

  abbrev pub some_term_matches : List NodeSelectorTerm → Bool
  some_term_matches [] = false
  some_term_matches (t ∷ terms) = term_matches t || some_term_matches terms

  -- The node satisfies the pod's required node affinity.
  abbrev pub node_matches : Option (List NodeSelectorTerm) → Bool
  node_matches none = true
  node_matches (some terms) = some_term_matches terms

  all_hold-has_requirement :
      (exprs : List NodeSelectorRequirement) (req : NodeSelectorRequirement)
      → has_requirement exprs req ≡ true
      → all_hold holds exprs ≡ true
      → holds req ≡ true
  unfolding has_requirement
  all_hold-has_requirement [] req h k = cc
  all_hold-has_requirement (e ∷ exprs) req h k =
      ground (
        arith,
        all_hold-has_requirement exprs req,
        equal_strings-eq e.values req.values,
        same e req,
      )
    where
      same :
          (e req : NodeSelectorRequirement)
          → e.key ≡ req.key
          → e.operator ≡ req.operator
          → e.values ≡ req.values
          → holds e ≡ holds req
      same e req p q r = cc

  all_hold-append_expression :
      (exprs : List NodeSelectorRequirement) (req : NodeSelectorRequirement)
      → all_hold holds (append_expression exprs req) ≡ (all_hold holds exprs && holds req)
  unfolding append_expression
  all_hold-append_expression [] req = ground arith
  all_hold-append_expression (e ∷ exprs) req = ground (arith, all_hold-append_expression exprs req)

  some_term_matches-narrow_terms :
      (req : NodeSelectorRequirement) (terms : List NodeSelectorTerm)
      → All HasRequirement terms
      → some_term_matches (narrow_terms req terms) ≡ (some_term_matches terms && holds req)
  unfolding narrow_terms
  some_term_matches-narrow_terms req [] w = refl
  some_term_matches-narrow_terms req (t ∷ terms) w = ground (
    arith,
    some_term_matches-narrow_terms req terms w.1,
    all_hold-append_expression t.match_expressions req,
    all_hold-has_requirement t.match_expressions req,
    append_expression-ne-nil t.match_expressions req,
  )

  node_matches-narrowed :
      (req : NodeSelectorRequirement) (required : Option (List NodeSelectorTerm))
      → IsWellFormed required
      → node_matches (some (narrowed req required)) ≡ (node_matches required && holds req)
  unfolding narrowed
  node_matches-narrowed req none w = ground arith
  node_matches-narrowed req (some []) w = elim w [ ]
  node_matches-narrowed req (some (t ∷ terms)) w = some_term_matches-narrow_terms req (t ∷ terms) w

  -- After narrowing, a node satisfies the pod's affinity exactly when it did before and it meets
  -- the hostname requirement. The pod's terms are such as the API server accepts.
  pub node_matches-narrow_to_nodes :
      (pod : Pod) (nodes : List String)
      → IsWellFormed (required_terms pod.spec.affinity)
      → node_matches (required_terms (narrow_to_nodes pod nodes).spec.affinity)
        ≡ (node_matches (required_terms pod.spec.affinity) && holds (hostname_in nodes))
  unfolding narrow_to_nodes
  node_matches-narrow_to_nodes pod nodes w =
      node_matches-narrowed (hostname_in nodes) (required_terms pod.spec.affinity) w

  -- Where the pod has one term without any requirement, it selects no node; narrowed, it selects
  -- the nodes that meet the hostname requirement.
  pub node_matches-narrow_to_nodes_empty_term :
      (pod : Pod) (nodes : List String)
      → required_terms pod.spec.affinity
        ≡ some (record { match_expressions = []; match_fields = [] } ∷ [])
      → (node_matches (required_terms pod.spec.affinity) ≡ false)
        × (node_matches (required_terms (narrow_to_nodes pod nodes).spec.affinity)
            ≡ holds (hostname_in nodes))
  unfolding narrow_to_nodes narrow_terms
  node_matches-narrow_to_nodes_empty_term pod nodes e = ground arith

narrow_terms_idem :
    (req : NodeSelectorRequirement) (terms : List NodeSelectorTerm)
    → narrow_terms req (narrow_terms req terms) ≡ narrow_terms req terms
unfolding narrow_terms
narrow_terms_idem req [] = refl
narrow_terms_idem req (t ∷ terms) =
    ap₂ ◌∷◌ (ground (arith, has_requirement-append_expression t.match_expressions req))
      (narrow_terms_idem req terms)

narrowed_idem :
    (req : NodeSelectorRequirement) (required : Option (List NodeSelectorTerm))
    → narrowed req (some (narrowed req required)) ≡ narrowed req required
unfolding narrowed
narrowed_idem req none = ground (arith, has_requirement-append_expression [] req)
narrowed_idem req (some []) = ground (arith, has_requirement-append_expression [] req)
narrowed_idem req (some (t ∷ terms)) = narrow_terms_idem req (t ∷ terms)

-- With two different nodes listed the other way round, a second narrowing of a pod that had no terms adds a
-- second requirement.
pub narrow_to_nodes_reordered :
    (pod : Pod) (a b : String)
    → a ≢ b
    → required_terms pod.spec.affinity ≡ none
    → required_terms (narrow_to_nodes (narrow_to_nodes pod (a ∷ b ∷ [])) (b ∷ a ∷ [])).spec.affinity
      ≡ some (
          record {
            match_expressions = hostname_in (a ∷ b ∷ []) ∷ hostname_in (b ∷ a ∷ []) ∷ [];
            match_fields = [];
          }
          ∷ [])
unfolding narrow_to_nodes has_requirement append_expression
narrow_to_nodes_reordered pod a b h e = ground arith
