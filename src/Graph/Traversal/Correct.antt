-- ===== src/Graph/Traversal/Correct.antt =====
-- Traverse and subgraphFromNodes against their specifications.
use incident_investigator.Prelude.{
  ℕ, suc, ◌≡◌, refl, ◌∙◌, ap, String, Bool, ◌&&◌, some, List, [], ◌∷◌, ◌==◌, eq_iff, contains,
  filter, any, Bool-cases, inl, inr, arith,
}
use incident_investigator.Prelude.Sorting.{sort, any-sort}
use incident_investigator.Model.Graph.{GraphNode, GraphEdge}
use incident_investigator.Graph.Store.{MemoryStore, all_nodes, all_edges, has_node, node_less}
use incident_investigator.Graph.Store.Integrity.{WellFormed}
use incident_investigator.Graph.Store.Listing.{ids, contains-all_nodes}
use incident_investigator.Graph.Traversal.{
  Walk, TraversalMode, is_dfs, adjacency, traversal_limit, traverse_order, dfs_visit, dfs_start,
  subgraph_from_nodes,
}
use incident_investigator.Graph.Traversal.Breadth.{Collected, bfs_loop-Collected}
use incident_investigator.Graph.Traversal.Depth.{dfs_visit-Collected}

-- In every mode Traverse ends. The ids that it visits are distinct, at most as many as the limit, and
-- each can be reached from the start along the edges of the mode; where they are fewer than the
-- limit, they are all the ids that can be reached.
pub traverse_order-Collected :
    {F : Type 0} (m : MemoryStore F) (start : String) (mode : TraversalMode) (limit : ℕ)
    → (w : Walk) × (traverse_order m start mode limit ≡ some w)
      × Collected (adjacency mode m) start (traversal_limit limit) w.order
unfolding traverse_order
traverse_order-Collected m start mode limit = elim (Bool-cases (is_dfs mode)) [
  | inl depth ↦ (
    dfs_visit (adjacency mode m) (traversal_limit limit) (suc (traversal_limit limit)) dfs_start
        start,
    rw depth,
    dfs_visit-Collected (adjacency mode m) start (traversal_limit limit),
  )
  | inr breadth ↦
      let (w, ends, good) = bfs_loop-Collected (adjacency mode m) start (traversal_limit limit) in
      (w, rw breadth ends, good)
]

any-filter {ℓ} :
    {A : Type ℓ} (p q : A → Bool) (xs : List A) → any q (filter p xs) ≡ any (λ x. p x && q x) xs
any-filter p q [] = refl
any-filter p q (x ∷ xs) = ground (arith, any-filter p q xs)

contains-ids-any :
    (ns : List GraphNode) (k : String) → contains (ids ns) k ≡ any (λ n. n.id == k) ns
contains-ids-any [] k = refl
contains-ids-any (n ∷ ns) k = ground (arith, contains-ids-any ns k)

any-wanted :
    (want : List String) (ns : List GraphNode) (k : String)
    → any (λ n. contains want n.id && (n.id == k)) ns ≡ (contains want k && contains (ids ns) k)
any-wanted want [] k = ground arith
any-wanted want (n ∷ ns) k =
    ground (arith, any-wanted want ns k, eq_iff n.id k, ap (contains want) {x = n.id} {y = k})

-- The subgraph of a well-formed store has a node with an id exactly if the id is asked for and stored.
-- It has an edge that passes a test exactly if AllEdges has one between two ids that are asked for.
pub subgraph_from_nodes_lem :
    {F : Type 0} (m : MemoryStore F) (want : List String) (name k : String)
    (test : GraphEdge F → Bool)
    → WellFormed m
    → (contains (ids (subgraph_from_nodes m want name).nodes) k ≡ (contains want k && has_node k m))
      × (any test (subgraph_from_nodes m want name).edges
          ≡ any (λ e. (contains want e.from && contains want e.to) && test e) (all_edges m))
unfolding subgraph_from_nodes
subgraph_from_nodes_lem m want name k test w =
    let wanted = λ (n : GraphNode). contains want n.id in
    (
      contains-ids-any (sort node_less (filter wanted (all_nodes m))) k
          ∙ any-sort node_less (λ n. n.id == k) (filter wanted (all_nodes m))
          ∙ any-filter wanted (λ n. n.id == k) (all_nodes m)
          ∙ any-wanted want (all_nodes m) k
          ∙ ap (λ b. contains want k && b) (contains-all_nodes m k w),
      any-filter (λ e. contains want e.from && contains want e.to) test (all_edges m),
    )
