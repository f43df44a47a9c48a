-- ===== src/Model/Graph.antt =====
-- internal/model/investigation_graph.go. `F` is the type that stands for float64.
use incident_investigator.Prelude.{ℕ, String, Bool, List}
use incident_investigator.Prelude.Dict.{Dict}
use incident_investigator.Model.Evidence.{Value}

-- The types of nodes and edges are texts in Go, so that a client may bring its own.
abbrev pub NodeType : Type 0
NodeType = String

abbrev pub EdgeType : Type 0
EdgeType = String

abbrev pub node_investigation : NodeType
node_investigation = "investigation"

abbrev pub node_question : NodeType
node_question = "question"

abbrev pub edge_supports : EdgeType
edge_supports = "supports"

abbrev pub edge_contradicts : EdgeType
edge_contradicts = "contradicts"

abbrev pub edge_causes : EdgeType
edge_causes = "causes"

abbrev pub edge_triggered : EdgeType
edge_triggered = "triggered"

abbrev pub edge_depends_on : EdgeType
edge_depends_on = "depends_on"

abbrev pub edge_occurred_before : EdgeType
edge_occurred_before = "occurred_before"

abbrev pub edge_occurred_after : EdgeType
edge_occurred_after = "occurred_after"

abbrev pub edge_correlates_with : EdgeType
edge_correlates_with = "correlates_with"

abbrev pub edge_likely_caused : EdgeType
edge_likely_caused = "likely_caused"

pub record GraphNode : Type 0 where
  pub id : String
  pub type : NodeType
  pub label : String
  pub ref_id : String
  pub properties : Dict Value

pub record GraphEdge (F : Type 0) : Type 0 where
  pub id : String
  pub from : String
  pub to : String
  pub type : EdgeType
  pub confidence : F
  pub weight : F
  pub timestamp : ℕ
  pub reason : String
  pub evidence_refs : List String
  pub inferred : Bool

pub record Subgraph (F : Type 0) : Type 0 where
  pub name : String
  pub nodes : List GraphNode
  pub edges : List (GraphEdge F)

pub record GraphView (F : Type 0) : Type 0 where
  pub nodes : List GraphNode
  pub edges : List (GraphEdge F)

pub record PathExplanation (F : Type 0) : Type 0 where
  pub from : String
  pub to : String
  pub reason : String
  pub confidence : F
  pub nodes : List GraphNode
  pub edges : List (GraphEdge F)

pub record GraphIssue : Type 0 where
  pub severity : String
  pub code : String
  pub message : String

pub data GraphQueryKind : Type 0 where
  upstream downstream supporting_evidence contradictions unanswered_questions : GraphQueryKind
  service_evidence blast_radius shortest_causal_path strongest_path : GraphQueryKind
  unknown_kind : String → GraphQueryKind
