-- ===== src/Graph/Store.antt =====
-- internal/graph/store.go. The mutex makes each method of MemoryStore one step, so that a method is
-- a function on the state; a method that fails has changed nothing.
pub mod Integrity
pub mod Listing
pub mod History
use Prim.Native.String.{compare}
use text.Mathlib.Text.{is_lt}
use incident_investigator.Prelude.{
  String, Bool, true, false, not, ◌||◌, Option, none, some, List, [], ◌∷◌, ◌++◌, ◌==◌, ◌<>◌,
  is_some, is_ok, filter, filter_map, Result, ok, err, if◌then◌else◌,
}
use incident_investigator.Prelude.Dict.{Dict, lookup, insert, retain, values}
use incident_investigator.Prelude.Sorting.{sort}
use incident_investigator.Model.Graph.{GraphNode, GraphEdge, GraphView}

-- `order` lists the ids of nodes in the order in which they were added.
pub record MemoryStore (F : Type 0) : Type 0 where
  pub nodes : Dict GraphNode
  pub edges : Dict (GraphEdge F)
  pub order : List String

pub data StoreError : Type 0 where
  node_not_found edge_not_found : StoreError

-- The comparison of the sorts: Go compares texts by their bytes.
abbrev pub node_less : GraphNode → GraphNode → Bool
node_less a b = is_lt (compare a.id b.id)

-- The entries that `delete(m, id)` keeps.
abbrev pub other_key : {V : Type 0} → String → String → V → Bool
other_key id k v = not (k == id)

module _ {F : Type 0} where
  -- NewMemoryStore and Reset
  unfoldable pub empty : MemoryStore F
  empty = record { nodes = []; edges = []; order = [] }

  abbrev pub edge_less : GraphEdge F → GraphEdge F → Bool
  edge_less a b = is_lt (compare a.id b.id)

  -- AddNode: the first node with an id stays.
  unfoldable pub add_node : GraphNode → MemoryStore F → MemoryStore F
  add_node node m =
      if is_some (lookup node.id m.nodes)
      then m
      else record m { nodes = insert node.id node m.nodes; order = m.order ++ node.id ∷ [] }

  -- UpdateNode
  unfoldable pub update_node : GraphNode → MemoryStore F → Result StoreError (MemoryStore F)
  update_node node m =
      if is_some (lookup node.id m.nodes)
      then ok (record m { nodes = insert node.id node m.nodes })
      else err node_not_found

  -- An edge that has the node at one of its ends.
  abbrev pub is_incident : String → GraphEdge F → Bool
  is_incident id e = (e.from == id) || (e.to == id)

  -- The tests by which `delete` in a loop keeps an entry.
  abbrev pub elsewhere : String → String → GraphEdge F → Bool
  elsewhere id k e = not (is_incident id e)

  -- DeleteNode: `order` keeps the id.
  unfoldable pub delete_node : String → MemoryStore F → Result StoreError (MemoryStore F)
  delete_node id m =
      if is_some (lookup id m.nodes)
      then ok (record m {
        nodes = retain (other_key id) m.nodes;
        edges = retain (elsewhere id) m.edges;
      })
      else err node_not_found

  -- GetNode
  unfoldable pub get_node : String → MemoryStore F → Result StoreError GraphNode
  get_node id m = elim (lookup id m.nodes) [ none ↦ err node_not_found | some n ↦ ok n ]

  -- The id that AddEdge stores the edge under.
  unfoldable pub named_edge : GraphEdge F → GraphEdge F
  named_edge edge =
      if edge.id == ""
      then record edge { id = "edge-" <> edge.from <> "-" <> edge.to <> "-" <> edge.type }
      else edge

  -- AddEdge: the last edge with an id stays.
  unfoldable pub add_edge : GraphEdge F → MemoryStore F → MemoryStore F
  add_edge edge m = let e = named_edge edge in record m { edges = insert e.id e m.edges }

  -- RemoveEdge
  unfoldable pub remove_edge : String → MemoryStore F → Result StoreError (MemoryStore F)
  remove_edge id m =
      if is_some (lookup id m.edges)
      then ok (record m { edges = retain (other_key id) m.edges })
      else err edge_not_found

  -- GetEdges
  unfoldable pub get_edges : String → MemoryStore F → List (GraphEdge F)
  get_edges id m = sort edge_less (filter (is_incident id) (values m.edges))

  -- AllNodes: ids of deleted nodes are passed over.
  unfoldable pub all_nodes : MemoryStore F → List GraphNode
  all_nodes m = filter_map (λ id. lookup id m.nodes) m.order

  -- AllEdges
  unfoldable pub all_edges : MemoryStore F → List (GraphEdge F)
  all_edges m = sort edge_less (values m.edges)

  -- InvestigationGraph.HasNode
  unfoldable pub has_node : String → MemoryStore F → Bool
  has_node id m = is_ok (get_node id m)

  -- InvestigationGraph.View
  unfoldable pub view : MemoryStore F → GraphView F
  view m = record { nodes = all_nodes m; edges = all_edges m }

  -- FromView: the loops over the nodes and the edges of the snapshot, whose pointers are not nil.
  unfoldable pub add_nodes : List GraphNode → MemoryStore F → MemoryStore F
  add_nodes [] m = m
  add_nodes (n ∷ ns) m = add_nodes ns (add_node n m)

  unfoldable pub add_edges : List (GraphEdge F) → MemoryStore F → MemoryStore F
  add_edges [] m = m
  add_edges (e ∷ es) m = add_edges es (add_edge e m)

  unfoldable pub from_view : Option (GraphView F) → MemoryStore F
  from_view none = empty
  from_view (some v) = add_edges v.edges (add_nodes v.nodes empty)
