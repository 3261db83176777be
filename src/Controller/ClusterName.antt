-- ===== src/Controller/ClusterName.antt =====
-- The cluster that a deployment or a node belongs to.
use module_controller.Prelude.{
  String, Bool, ◌≡◌, ◌∙◌, refl, arith, Option, none, some, List, [], ◌∷◌, ◌++◌, lookup, flat_map,
  filter, ◌==◌, if◌then◌else◌, Bool-cases, inl, inr,
}
use module_controller.Go.Effect.{Outcome, returns, panics}
use module_controller.Platform.{Platform}
use module_controller.Platform.Kube.{
  Labels, NodeSelectorRequirement, NodeSelectorTerm, Affinity, Deployment, Node,
}

-- `expr.Values[0]`, which panics on an empty slice.
abbrev pub first_value : List String → Outcome String
first_value [] = panics
first_value (v ∷ rest) = returns v

-- A loop that returned, or what follows it.
abbrev or_else : Option (Outcome String) → Outcome String → Outcome String
or_else none next = next
or_else (some r) next = r

module _ (p : Platform) where
  -- The inner loop; `some` is its `return`.
  cluster_of_expressions : List NodeSelectorRequirement → Option (Outcome String)
  cluster_of_expressions [] = none
  cluster_of_expressions (e ∷ rest) =
      if e.key == p.label_key_of_base_cluster_name
      then some (first_value e.values)
      else cluster_of_expressions rest

  cluster_of_terms : List NodeSelectorTerm → Outcome String
  unfolding cluster_of_expressions
  cluster_of_terms [] = returns ""
  cluster_of_terms (term ∷ rest) =
      or_else (cluster_of_expressions term.match_expressions) (cluster_of_terms rest)

  -- The terms that the chain of nil tests reaches.
  abbrev pub required_terms : Option Affinity → List NodeSelectorTerm
  required_terms none = []
  required_terms (some a) = elim a.node_affinity [
    | none ↦ []
    | some n ↦ elim n.required_during_scheduling [ none ↦ [] | some s ↦ s.node_selector_terms ]
  ]

  abbrev pub selector_cluster : Option Labels → Option String
  selector_cluster none = none
  selector_cluster (some labels) = lookup p.label_key_of_base_cluster_name labels

  unfoldable pub get_cluster_name_from_deployment : Deployment → Outcome String
  unfolding cluster_of_terms lookup
  get_cluster_name_from_deployment d = elim (lookup p.label_key_of_base_cluster_name d.labels) [
    | some name ↦ returns name
    | none ↦ elim (selector_cluster d.node_selector) [
      | some name ↦ returns name
      | none ↦ cluster_of_terms (required_terms d.affinity)
    ]
  ]

  unfoldable pub get_cluster_name_from_node : Node → String
  unfolding lookup
  get_cluster_name_from_node node = elim (lookup p.label_key_of_base_cluster_name node.labels) [
    | none ↦ ""
    | some name ↦ name
  ]

  -- The requirements on the cluster name among all terms, in order.
  abbrev pub cluster_requirements : Deployment → List NodeSelectorRequirement
  cluster_requirements d =
      filter (λ e. e.key == p.label_key_of_base_cluster_name)
        (flat_map (λ t. t.match_expressions) (required_terms d.affinity))

  -- The source of the name: the first that is there of the label, the node selector and the first
  -- requirement on the cluster name of the required node affinity.
  abbrev pub named_by :
      Option String → Option String → List NodeSelectorRequirement → Outcome String
  named_by (some name) selector requirements = returns name
  named_by none (some name) requirements = returns name
  named_by none none [] = returns ""
  named_by none none (e ∷ rest) = first_value e.values

  abbrev names_cluster : NodeSelectorRequirement → Bool
  names_cluster e = e.key == p.label_key_of_base_cluster_name

  cluster_of_expressions-eq :
      (expressions more : List NodeSelectorRequirement) (next : Outcome String)
      → next ≡ named_by none none (filter names_cluster more)
      → or_else (cluster_of_expressions expressions) next
        ≡ named_by none none (filter names_cluster (expressions ++ more))
  unfolding cluster_of_expressions
  cluster_of_expressions-eq [] more next h = h
  cluster_of_expressions-eq (e ∷ rest) more next h = elim (Bool-cases (names_cluster e)) [
    | inl named ↦ rw named
    | inr other ↦ rw other (cluster_of_expressions-eq rest more next h)
  ]

  cluster_of_terms-eq :
      (terms : List NodeSelectorTerm)
      → cluster_of_terms terms
        ≡ named_by none none (filter names_cluster (flat_map (λ t. t.match_expressions) terms))
  unfolding cluster_of_terms
  cluster_of_terms-eq [] = refl
  cluster_of_terms-eq (term ∷ rest) =
      cluster_of_expressions-eq term.match_expressions (flat_map (λ t. t.match_expressions) rest) _
        (cluster_of_terms-eq rest)

  -- The name of a deployment's cluster is its label, else the entry of its node selector, else the
  -- first value of the first requirement on that key among all terms of the required node affinity,
  -- and "" if there is none. It panics exactly where that requirement has no values.
  pub cluster_name_of_deployment :
      (d : Deployment)
      → get_cluster_name_from_deployment d
        ≡ named_by
            (lookup p.label_key_of_base_cluster_name d.labels)
            (selector_cluster d.node_selector)
            (cluster_requirements d)
  unfolding get_cluster_name_from_deployment
  cluster_name_of_deployment d = ground (arith, cluster_of_terms-eq (required_terms d.affinity))

  -- A deployment with neither label nor selector entry, whose first requirement on the cluster name
  -- has no values, as with the operator Exists, makes the lookup panic.
  pub cluster_name_panics :
      (d : Deployment) (e : NodeSelectorRequirement) (rest : List NodeSelectorRequirement)
      → lookup p.label_key_of_base_cluster_name d.labels ≡ none
      → selector_cluster d.node_selector ≡ none
      → cluster_requirements d ≡ e ∷ rest
      → e.values ≡ []
      → get_cluster_name_from_deployment d ≡ panics
  cluster_name_panics d e rest l s r v = cluster_name_of_deployment d ∙ rw (l, s, r, v)
