-- ===== src/Examples/Graphs.antt =====
-- The theorems on the graph at a graph of three services.
use incident_investigator.Prelude.{
  ℕ, ◌≡◌, refl, true, List, [], ◌∷◌, some, Option, String, ok, contains, any, ◌&&◌, Distinct,
}
use incident_investigator.Prelude.Dict.{lookup, insert, retain}
use incident_investigator.Model.Graph.{GraphEdge}
use incident_investigator.Graph.Consistency.{
  has_code, link_issues, is_dangling, is_orphan, link_issues_lem,
}
use incident_investigator.Graph.Store.{
  MemoryStore, empty, add_node, add_edge, delete_node, all_nodes, all_edges, has_node,
}
use incident_investigator.Graph.Store.Integrity.{
  or_unchanged, WellFormed, Op, run, run-WellFormed, empty-WellFormed, perform,
}
use incident_investigator.Graph.Store.Listing.{
  ids, Deleted, contains-all_nodes, delete_node-Deleted,
}
use incident_investigator.Graph.Store.History.{run-Distinct, readded_not-Distinct}
use incident_investigator.Graph.Links.{Links}
use incident_investigator.Graph.Traversal.{
  traversal_limit, TraversalMode, traverse_order, adjacency, subgraph_from_nodes, Walk,
}
use incident_investigator.Graph.Traversal.Breadth.{Collected}
use incident_investigator.Graph.Traversal.Correct.{
  traverse_order-Collected, subgraph_from_nodes_lem,
}
use incident_investigator.Graph.ShortestPath.{shortest_path_ids}
use incident_investigator.Graph.ShortestPath.Correct.{Answers, shortest_path_ids-Answers}
use incident_investigator.Graph.Query.{reverse_order}
use incident_investigator.Graph.Query.Upstream.{Upstream, reverse_order-Upstream}
use incident_investigator.Examples.Inputs.{service_node, cause}

-- The calls that build the graph: the gateway fails because the checkout does, and that because the
-- database does.
abbrev calls : List (Op ℕ)
calls =
    Op.adds_node (service_node "gateway")
    ∷ Op.adds_node (service_node "checkout")
    ∷ Op.adds_node (service_node "database")
    ∷ Op.adds_edge (cause "e1" "database" "checkout")
    ∷ Op.adds_edge (cause "e2" "checkout" "gateway")
    ∷ []

abbrev graph : MemoryStore ℕ
graph = run calls empty

abbrev cause_links : Links
cause_links = ("database", "checkout") ∷ ("checkout", "gateway") ∷ []

graph-WellFormed : WellFormed graph
graph-WellFormed = run-WellFormed calls empty empty-WellFormed

run-WellFormed_example : WellFormed (run calls empty)
run-WellFormed_example = run-WellFormed calls empty empty-WellFormed

contains-all_nodes_example : contains (ids (all_nodes graph)) "checkout" ≡ has_node "checkout" graph
contains-all_nodes_example = contains-all_nodes graph "checkout" graph-WellFormed

link_issues_lem_example :
    (any (has_code "dangling_reference") (link_issues graph)
      ≡ any (is_dangling graph) (all_edges graph))
    × (any (has_code "orphan_node") (link_issues graph)
        ≡ any (is_orphan (all_edges graph)) (all_nodes graph))
link_issues_lem_example = link_issues_lem graph graph-WellFormed

run-Distinct_example : Distinct (ids (all_nodes (run calls empty)))
run-Distinct_example = run-Distinct calls refl

shortest_path_ids-Answers_example :
    (answer : Option (List String)) × (shortest_path_ids cause_links "database" "gateway"
      ≡ some answer)
    × Answers cause_links "database" "gateway" answer
shortest_path_ids-Answers_example = shortest_path_ids-Answers cause_links "database" "gateway"

reverse_order-Upstream_example :
    (order : List String) × (reverse_order cause_links "database" 30 ≡ some order)
    × Upstream cause_links "database" 30 order
reverse_order-Upstream_example = reverse_order-Upstream cause_links "database" 30

subgraph_from_nodes_example :
    (contains (ids (subgraph_from_nodes graph ("checkout" ∷ []) "part").nodes) "checkout"
      ≡ (contains ("checkout" ∷ []) "checkout" && has_node "checkout" graph))
    × (any (λ e. true) (subgraph_from_nodes graph ("checkout" ∷ []) "part").edges
        ≡ any
            (λ (e : GraphEdge ℕ).
              (contains ("checkout" ∷ []) e.from && contains ("checkout" ∷ []) e.to) && true)
            (all_edges graph))
subgraph_from_nodes_example =
    subgraph_from_nodes_lem graph ("checkout" ∷ []) "part" "checkout" (λ e. true) graph-WellFormed

traverse_order-Collected_example :
    (w : Walk) × (traverse_order graph "database" TraversalMode.causal 10 ≡ some w)
    × Collected (adjacency TraversalMode.causal graph) "database" (traversal_limit 10) w.order
traverse_order-Collected_example = traverse_order-Collected graph "database" TraversalMode.causal 10

-- The graph without the checkout.
abbrev thinned : MemoryStore ℕ
thinned = or_unchanged graph (delete_node "checkout" graph)

checkout_deleted : delete_node "checkout" graph ≡ ok thinned
unfolding delete_node run perform empty add_node add_edge lookup insert retain
checkout_deleted = refl

delete_node-Deleted_example : Deleted "checkout" graph thinned
delete_node-Deleted_example =
    delete_node-Deleted graph thinned "checkout" graph-WellFormed checkout_deleted

readded_not-Distinct_example :
    ¬ Distinct (ids (all_nodes (add_node (service_node "checkout") thinned)))
readded_not-Distinct_example =
    readded_not-Distinct graph thinned (service_node "checkout") graph-WellFormed checkout_deleted
