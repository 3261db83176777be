-- ===== src/Controller/ReadyNodes.antt =====
-- getReadyNodeCount: the running nodes of a cluster that have a Ready condition that is True.
use module_controller.Prelude.{
  ℕ, ◌+◌, String, Bool, ◌&&◌, ◌≡◌, refl, arith, List, [], ◌∷◌, length, filter, any, ◌==◌,
  if◌then◌else◌,
}
use module_controller.Go.Effect.{Result, ok, err}
use module_controller.Platform.{Platform}
use module_controller.Platform.Kube.{Node, NodeCondition}
use module_controller.Controller.{Cluster}

module _ (p : Platform) where
  -- What the inner loop adds to the count: it breaks at the first Ready condition that is True.
  ready_increment : List NodeCondition → ℕ
  ready_increment [] = 0
  ready_increment (c ∷ rest) =
      let more = ready_increment rest in
      if c.kind == p.node_ready then (if c.status == p.condition_true then 1 else more) else more

  count_ready : ℕ → List Node → ℕ
  unfolding ready_increment
  count_ready cnt [] = cnt
  count_ready cnt (node ∷ rest) =
      count_ready
        (if node.phase == p.node_running then cnt + ready_increment node.conditions else cnt) rest

  abbrev count_listed : Result (List Node) → Result ℕ
  count_listed (err e) = err e
  count_listed (ok nodes) = ok (count_ready 0 nodes)

  unfoldable pub get_ready_node_count : {W : Type 0} → Cluster W → String → W → Result ℕ
  unfolding count_ready
  get_ready_node_count c cluster_name w =
      count_listed (c.list_nodes ((p.label_key_of_base_cluster_name, cluster_name) ∷ []) w)

  -- A node that takes pods: it is running, and a Ready condition is True.
  abbrev pub is_ready : Node → Bool
  is_ready node =
      node.phase == p.node_running
      && any (λ c. c.kind == p.node_ready && c.status == p.condition_true) node.conditions

  abbrev pub ready_of_listed : Result (List Node) → Result ℕ
  ready_of_listed (err e) = err e
  ready_of_listed (ok nodes) = ok (length (filter is_ready nodes))

  ready_increment-eq :
      (conditions : List NodeCondition)
      → ready_increment conditions ≡ (
          if any (λ c. c.kind == p.node_ready && c.status == p.condition_true) conditions
          then 1
          else 0)
  unfolding ready_increment
  ready_increment-eq [] = refl
  ready_increment-eq (c ∷ rest) = ground (arith, ready_increment-eq rest)

  count_ready-eq :
      (cnt : ℕ) (nodes : List Node) → count_ready cnt nodes ≡ cnt + length (filter is_ready nodes)
  unfolding count_ready
  count_ready-eq cnt [] = omega arith
  count_ready-eq cnt (node ∷ rest) = ground (
    arith,
    ready_increment-eq node.conditions,
    count_ready-eq (cnt + ready_increment node.conditions) rest,
    count_ready-eq cnt rest,
  )

  count_listed-eq : (r : Result (List Node)) → count_listed r ≡ ready_of_listed r
  count_listed-eq (ok nodes) = rw (count_ready-eq 0 nodes) (ground arith)
  count_listed-eq (err e) = refl

  -- The count of a cluster is the number of the listed nodes that are running and have some Ready
  -- condition that is True, each counted once however many such conditions it has; an error of the
  -- list is passed on.
  pub ready_node_count :
      {W : Type 0} (c : Cluster W) (cluster_name : String) (w : W)
      → get_ready_node_count c cluster_name w
        ≡ ready_of_listed (c.list_nodes ((p.label_key_of_base_cluster_name, cluster_name) ∷ []) w)
  unfolding get_ready_node_count
  ready_node_count c cluster_name w = count_listed-eq _
