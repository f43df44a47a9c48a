-- ===== src/Graph/Consistency.antt =====
-- internal/graph/inference.go: the loops of ConsistencyChecker.Check over the edges and the nodes. Its
-- search for a cycle of dependencies is not modelled.
use incident_investigator.Prelude.{
  ◌≡◌, refl, String, Bool, false, not, ◌&&◌, ◌||◌, List, [], ◌∷◌, ◌++◌, ◌==◌, ◌<>◌, eq_iff, arith,
  contains, any, any-append, if◌then◌else◌,
}
use incident_investigator.Model.Graph.{GraphNode, GraphEdge, node_investigation}
use incident_investigator.Graph.Store.{MemoryStore, all_nodes, all_edges, has_node, is_incident}
use incident_investigator.Graph.Store.Integrity.{WellFormed}
use incident_investigator.Graph.Store.Listing.{ids, contains-all_nodes}

pub record GraphIssue : Type 0 where
  pub severity : String
  pub code : String
  pub message : String

module _ {F : Type 0} where
  -- The text by which Check finds an edge again.
  unfoldable pub edge_key : GraphEdge F → String
  edge_key e = e.from <> "|" <> e.to <> "|" <> e.type

  unfoldable pub dangling_issue : List String → GraphEdge F → List GraphIssue
  dangling_issue nodes e =
      if not (contains nodes e.from) || not (contains nodes e.to)
      then record {
        severity = "high";
        code = "dangling_reference";
        message = "Edge " <> e.id <> " references missing node.";
      }
        ∷ []
      else []

  unfoldable pub duplicate_issue : List String → GraphEdge F → List GraphIssue
  unfolding edge_key
  duplicate_issue seen e =
      if contains seen (edge_key e)
      then record {
        severity = "medium";
        code = "duplicate_edge";
        message = "Duplicate edge: " <> edge_key e;
      }
        ∷ []
      else []

  -- The loop over the edges. `seen` has the keys of the edges before.
  unfoldable pub edge_issues : List String → List String → List (GraphEdge F) → List GraphIssue
  unfolding dangling_issue duplicate_issue edge_key
  edge_issues nodes seen [] = []
  edge_issues nodes seen (e ∷ es) =
      dangling_issue nodes e ++ (duplicate_issue seen e ++ edge_issues nodes (edge_key e ∷ seen) es)

  -- The nodes that an edge leaves or reaches.
  unfoldable pub connected : List (GraphEdge F) → List String
  connected [] = []
  connected (e ∷ es) = e.from ∷ e.to ∷ connected es

unfoldable pub orphan_issue : List String → GraphNode → List GraphIssue
orphan_issue linked n =
    if not (n.type == node_investigation) && not (contains linked n.id)
    then record {
      severity = "low";
      code = "orphan_node";
      message = "Node " <> n.id <> " has no edges.";
    }
      ∷ []
    else []

unfoldable pub orphan_issues : List String → List GraphNode → List GraphIssue
unfolding orphan_issue
orphan_issues linked [] = []
orphan_issues linked (n ∷ ns) = orphan_issue linked n ++ orphan_issues linked ns

module _ {F : Type 0} where
  -- What Check has found when it begins to look for a cycle.
  unfoldable pub link_issues : MemoryStore F → List GraphIssue
  unfolding edge_issues connected orphan_issues
  link_issues m =
      edge_issues (ids (all_nodes m)) [] (all_edges m)
      ++ orphan_issues (connected (all_edges m)) (all_nodes m)

abbrev pub has_code : String → GraphIssue → Bool
has_code code i = i.code == code

module _ {F : Type 0} where
  -- An edge with an end that is not stored.
  abbrev pub is_dangling : MemoryStore F → GraphEdge F → Bool
  is_dangling m e = not (has_node e.from m) || not (has_node e.to m)

  -- A node of an incident that no edge touches.
  abbrev pub is_orphan : List (GraphEdge F) → GraphNode → Bool
  is_orphan es n = not (n.type == node_investigation) && not (any (is_incident n.id) es)

  dangling-edge_issues :
      (m : MemoryStore F) (nodes seen : List String) (es : List (GraphEdge F))
      → ((k : String) → contains nodes k ≡ has_node k m)
      → any (has_code "dangling_reference") (edge_issues nodes seen es) ≡ any (is_dangling m) es
  unfolding edge_issues dangling_issue duplicate_issue
  dangling-edge_issues m nodes seen [] h = refl
  dangling-edge_issues m nodes seen (e ∷ es) h =
      ground (arith, dangling-edge_issues m nodes (edge_key e ∷ seen) es h, h e.from, h e.to)

  no_orphans-edge_issues :
      (nodes seen : List String) (es : List (GraphEdge F))
      → any (has_code "orphan_node") (edge_issues nodes seen es) ≡ false
  unfolding edge_issues dangling_issue duplicate_issue
  no_orphans-edge_issues nodes seen [] = refl
  no_orphans-edge_issues nodes seen (e ∷ es) =
      ground (arith, no_orphans-edge_issues nodes (edge_key e ∷ seen) es)

  contains-connected :
      (es : List (GraphEdge F)) (k : String) → contains (connected es) k ≡ any (is_incident k) es
  unfolding connected
  contains-connected [] k = refl
  contains-connected (e ∷ es) k =
      ground (arith, contains-connected es k, eq_iff e.from k, eq_iff e.to k)

  orphans-orphan_issues :
      (es : List (GraphEdge F)) (ns : List GraphNode)
      → any (has_code "orphan_node") (orphan_issues (connected es) ns) ≡ any (is_orphan es) ns
  unfolding orphan_issues orphan_issue
  orphans-orphan_issues es [] = refl
  orphans-orphan_issues es (n ∷ ns) =
      ground (arith, orphans-orphan_issues es ns, contains-connected es n.id)

no_dangling-orphan_issues :
    (linked : List String) (ns : List GraphNode)
    → any (has_code "dangling_reference") (orphan_issues linked ns) ≡ false
unfolding orphan_issues orphan_issue
no_dangling-orphan_issues linked [] = refl
no_dangling-orphan_issues linked (n ∷ ns) = ground (arith, no_dangling-orphan_issues linked ns)

module _ {F : Type 0} where
  -- On a well-formed store Check reports a dangling reference exactly if AllEdges returns an edge with
  -- an end that HasNode does not find, and an orphan exactly if AllNodes returns a node that is not of
  -- the type of investigations and that no edge of AllEdges has at an end.
  pub link_issues_lem :
      (m : MemoryStore F)
      → WellFormed m
      → (any (has_code "dangling_reference") (link_issues m) ≡ any (is_dangling m) (all_edges m))
        × (any (has_code "orphan_node") (link_issues m)
            ≡ any (is_orphan (all_edges m)) (all_nodes m))
  unfolding link_issues
  link_issues_lem m w =
      let es = all_edges m in
      let ns = all_nodes m in
      let found = edge_issues (ids ns) [] es in
      let alone = orphan_issues (connected es) ns in
      (
        ground (
          arith,
          any-append (has_code "dangling_reference") found alone,
          dangling-edge_issues m (ids ns) [] es (λ k. contains-all_nodes m k w),
          no_dangling-orphan_issues (connected es) ns,
        ),
        ground (
          arith,
          any-append (has_code "orphan_node") found alone,
          no_orphans-edge_issues (ids ns) [] es,
          orphans-orphan_issues es ns,
        ),
      )
