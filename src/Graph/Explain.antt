-- ===== src/Graph/Explain.antt =====
-- ExplainPath of internal/graph/query.go.
use incident_investigator.Prelude.{
  ltb, ◌<>◌, String, Option, none, some, length, map, if◌then◌else◌,
}
use incident_investigator.Model.Platform.{Platform, sum}
use incident_investigator.Model.Graph.{GraphEdge, Subgraph, PathExplanation}
use incident_investigator.Graph.Store.{MemoryStore}
use incident_investigator.Graph.ShortestPath.{shortest_path}
use incident_investigator.Graph.Query.{resolve_node_id}

module _ (P : Platform) where
  open P use {Float, of_ℕ, over, decimal}

  -- The mean confidence of the edges, 0 for none.
  unfoldable pub path_confidence : Subgraph Float → Float
  path_confidence sg =
      let total = sum P (map (λ (e : GraphEdge Float). e.confidence) sg.edges) in
      if ltb 0 (length sg.edges) then over total (of_ℕ (length sg.edges)) else total

  unfoldable pub explanation_of : String → String → Subgraph Float → PathExplanation Float
  explanation_of from to sg = record {
    from = from;
    to = to;
    reason =
        "Causal path from "
        <> from
        <> " to "
        <> to
        <> " with "
        <> decimal (length sg.edges)
        <> " hop(s).";
    confidence = path_confidence sg;
    nodes = sg.nodes;
    edges = sg.edges;
  }

  -- ExplainPath
  unfoldable pub explain_path : MemoryStore Float → String → String → Option (PathExplanation Float)
  explain_path m from to = elim (shortest_path m (resolve_node_id m from) (resolve_node_id m to)) [
    | none ↦ none
    | some sg ↦ some (explanation_of from to sg)
  ]
