-- ===== src/Graph/Traversal.antt =====
-- internal/graph/traversal.go: the walks and the subgraphs.
pub mod Breadth
pub mod Correct
pub mod Depth
use incident_investigator.Prelude.{
  ℕ, zero, suc, ◌≡◌, String, Bool, true, false, not, ◌&&◌, ◌||◌, Option, none, some, List, [], ◌∷◌,
  ◌++◌, ◌==◌, if◌then◌else◌, contains, length, ltb, filter, any, map, foldl,
}
use incident_investigator.Prelude.Sorting.{sort}
use incident_investigator.Model.Graph.{
  EdgeType, GraphNode, GraphEdge, Subgraph, edge_causes, edge_likely_caused, edge_triggered,
  edge_occurred_before, edge_occurred_after,
}
use incident_investigator.Graph.Store.{MemoryStore, all_nodes, all_edges, node_less}
use incident_investigator.Graph.Links.{Links, links, targets}

pub data TraversalMode : Type 0 where
  bfs dfs shortest_path topological causal timeline : TraversalMode

-- causalEdgeTypes
unfoldable pub is_causal : EdgeType → Bool
is_causal t = t == edge_causes || t == edge_likely_caused || t == edge_triggered

-- temporalEdgeTypes
unfoldable pub is_temporal : EdgeType → Bool
is_temporal t = t == edge_occurred_before || t == edge_occurred_after

-- The tests on the mode in the loop of `adjacency`.
unfoldable pub follows : {F : Type 0} → TraversalMode → GraphEdge F → Bool
unfolding is_causal is_temporal
follows causal e = is_causal e.type
follows timeline e = is_temporal e.type
follows _ e = true

unfoldable pub adjacency : {F : Type 0} → TraversalMode → MemoryStore F → Links
adjacency mode m = links (follows mode) (all_edges m)

-- The local variables of Traverse: the set of visited ids, the ids in order, and the queue.
pub record Walk : Type 0 where
  pub visited : List String
  pub order : List String
  pub queue : List String

-- The body of the breadth-first loop, after `id` left the head of the queue.
unfoldable pub bfs_step : Links → Walk → String → List String → Walk
bfs_step adj w id rest =
    if contains w.visited id
    then record w { queue = rest }
    else let visited = id ∷ w.visited in
      record {
        visited = visited;
        order = w.order ++ id ∷ [];
        queue = rest ++ filter (λ next. not (contains visited next)) (targets adj id);
      }

-- The loop on fuel; `none` means that the fuel ran out.
unfoldable pub bfs_loop : Links → ℕ → ℕ → Walk → Option Walk
bfs_loop adj limit zero w = none
bfs_loop adj limit (suc fuel) w = elim w.queue [
  | [] ↦ some w
  | id ∷ rest ↦
      let next = bfs_loop adj limit fuel (bfs_step adj w id rest) in
      if ltb (length w.order) limit then next else some w
]

unfoldable pub bfs_start : String → Walk
bfs_start start = record { visited = []; order = []; queue = start ∷ [] }

-- Each round but the last takes a link or the start off the queue: one round more is enough.
unfoldable pub bfs_fuel : Links → ℕ
bfs_fuel adj = suc (suc (length adj))

-- The recursive closure `dfs`, on fuel for its depth. It changes `visited` and `order`.
unfoldable pub dfs_visit : Links → ℕ → ℕ → Walk → String → Walk
dfs_visit adj limit zero w id = w
dfs_visit adj limit (suc fuel) w id =
    let entered = record w { visited = id ∷ w.visited; order = w.order ++ id ∷ [] } in
    let left = foldl (dfs_visit adj limit fuel) entered (targets adj id) in
    if contains w.visited id || not (ltb (length w.order) limit) then w else left

unfoldable pub dfs_start : Walk
dfs_start = record { visited = []; order = []; queue = [] }

-- Traverse: the order of the ids that it visits. A limit of 0 stands for any limit that is not
-- positive.
abbrev pub traversal_limit : ℕ → ℕ
traversal_limit zero = 50
traversal_limit (suc n) = suc n

abbrev pub is_dfs : TraversalMode → Bool
is_dfs dfs = true
is_dfs _ = false

unfoldable pub traverse_order :
    {F : Type 0} → MemoryStore F → String → TraversalMode → ℕ → Option Walk
traverse_order m start mode limit =
    let bound = traversal_limit limit in
    let adj = adjacency mode m in
    if is_dfs mode
    then some (dfs_visit adj bound (suc bound) dfs_start start)
    else bfs_loop adj bound (bfs_fuel adj) (bfs_start start)

-- subgraphFromNodes: the stored nodes with the ids, sorted by id, and the edges between them.
unfoldable pub subgraph_from_nodes :
    {F : Type 0} → MemoryStore F → List String → String → Subgraph F
subgraph_from_nodes m want name = record {
  name = name;
  nodes = sort node_less (filter (λ n. contains want n.id) (all_nodes m));
  edges = filter (λ e. contains want e.from && contains want e.to) (all_edges m);
}

-- Traverse
unfoldable pub traverse :
    {F : Type 0} → MemoryStore F → String → TraversalMode → ℕ → Option (Subgraph F)
traverse m start mode limit = elim (traverse_order m start mode limit) [
  | none ↦ none
  | some w ↦ some (subgraph_from_nodes m w.order "")
]
