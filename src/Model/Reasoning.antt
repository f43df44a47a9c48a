-- ===== src/Model/Reasoning.antt =====
-- internal/model/reasoning.go: the actions that reasoners propose, and the record of a cycle.
use incident_investigator.Prelude.{ℕ, String, Bool, Option, none, List, [], ◌==◌}
use incident_investigator.Model.Evidence.{EvidenceRequest, Hypothesis, Contradiction}
use incident_investigator.Model.Graph.{GraphEdge, GraphView}
use incident_investigator.Model.Protocol.{Question, ProtocolEvidenceRequest}
use incident_investigator.Model.Investigation.{
  SufficiencyReport, NextStep, CoverageReport, EvidenceImportance, InvestigationProgress,
  ConfidenceBreakdown, TimelineEntry, BlastRadius,
}

-- An ActionType is a text in Go; `unknown_action` is any that has no constant.
pub data ActionType : Type 0 where
  increase_hypothesis_confidence decrease_hypothesis_confidence create_question : ActionType
  resolve_question reject_question create_evidence_request link_graph_nodes : ActionType
  create_hypothesis reject_hypothesis promote_hypothesis create_recommendation : ActionType
  mark_contradiction mark_investigation_complete : ActionType
  set_contradictions replace_hypotheses set_timeline update_graph set_blast_radius : ActionType
  set_evidence_plan set_coverage set_strategy set_sufficiency set_confidence : ActionType
  set_progress set_investigation_progress set_confidence_breakdown : ActionType
  set_evidence_importance : ActionType
  unknown_action : String → ActionType

unfoldable pub action_name : ActionType → String
action_name increase_hypothesis_confidence = "IncreaseHypothesisConfidence"
action_name decrease_hypothesis_confidence = "DecreaseHypothesisConfidence"
action_name create_question = "CreateQuestion"
action_name resolve_question = "ResolveQuestion"
action_name reject_question = "RejectQuestion"
action_name create_evidence_request = "CreateEvidenceRequest"
action_name link_graph_nodes = "LinkGraphNodes"
action_name create_hypothesis = "CreateHypothesis"
action_name reject_hypothesis = "RejectHypothesis"
action_name promote_hypothesis = "PromoteHypothesis"
action_name create_recommendation = "CreateRecommendation"
action_name mark_contradiction = "MarkContradiction"
action_name mark_investigation_complete = "MarkInvestigationComplete"
action_name set_contradictions = "SetContradictions"
action_name replace_hypotheses = "ReplaceHypotheses"
action_name set_timeline = "SetTimeline"
action_name update_graph = "UpdateGraph"
action_name set_blast_radius = "SetBlastRadius"
action_name set_evidence_plan = "SetEvidencePlan"
action_name set_coverage = "SetCoverage"
action_name set_strategy = "SetStrategy"
action_name set_sufficiency = "SetSufficiency"
action_name set_confidence = "SetConfidence"
action_name set_progress = "SetProgress"
action_name set_investigation_progress = "SetInvestigationProgress"
action_name set_confidence_breakdown = "SetConfidenceBreakdown"
action_name set_evidence_importance = "SetEvidenceImportance"
action_name (unknown_action name) = name

-- `==` on action types
unfoldable pub same_type : ActionType → ActionType → Bool
unfolding action_name
same_type a b = action_name a == action_name b

-- A pointer of Go that may be nil is an option.
pub record ReasoningAction (F : Type 0) : Type 0 where
  pub type : ActionType
  pub reasoner : String
  pub reason : String
  pub hypothesis_id : String
  pub hypothesis : Option (Hypothesis F)
  pub delta : F
  pub question_id : String
  pub question : Option (Question F)
  pub evidence_request : Option (ProtocolEvidenceRequest F)
  pub graph_edge : Option (GraphEdge F)
  pub contradiction : Option Contradiction
  pub contradictions : List Contradiction
  pub recommendation : String
  pub hypotheses : List (Hypothesis F)
  pub timeline : List TimelineEntry
  pub graph : Option (GraphView F)
  pub blast_radius : BlastRadius F
  pub required_evidence : List EvidenceRequest
  pub missing_evidence : List EvidenceRequest
  pub coverage : CoverageReport F
  pub strategy : List (NextStep F)
  pub sufficiency : Option (SufficiencyReport F)
  pub confidence : F
  pub progress : F
  pub investigation_progress : Option (InvestigationProgress F)
  pub confidence_breakdown : Option (ConfidenceBreakdown F)
  pub evidence_importance : List (EvidenceImportance F)

module _ {F : Type 0} where
  -- The action in which Go leaves every field but the type at its zero value.
  unfoldable pub bare_action : F → ActionType → ReasoningAction F
  bare_action zero type = record {
    type = type;
    reasoner = "";
    reason = "";
    hypothesis_id = "";
    hypothesis = none;
    delta = zero;
    question_id = "";
    question = none;
    evidence_request = none;
    graph_edge = none;
    contradiction = none;
    contradictions = [];
    recommendation = "";
    hypotheses = [];
    timeline = [];
    graph = none;
    blast_radius = record { services = []; regions = []; customers = []; apis = [] };
    required_evidence = [];
    missing_evidence = [];
    coverage = record { categories = []; overall = zero };
    strategy = [];
    sufficiency = none;
    confidence = zero;
    progress = zero;
    investigation_progress = none;
    confidence_breakdown = none;
    evidence_importance = [];
  }

pub record Finding (F : Type 0) : Type 0 where
  pub type : String
  pub summary : String
  pub confidence : F
  pub reason : String
  pub refs : List String

pub record ReasonerMetrics (F : Type 0) : Type 0 where
  pub execution_time : ℕ
  pub questions_resolved : ℕ
  pub questions_created : ℕ
  pub hypotheses_created : ℕ
  pub hypotheses_rejected : ℕ
  pub average_confidence_delta : F
  pub contradictions_found : ℕ
  pub recommendations_created : ℕ
  pub graph_nodes_created : ℕ
  pub graph_edges_created : ℕ
  pub actions_proposed : ℕ

pub record ReasoningResult (F : Type 0) : Type 0 where
  pub reasoner : String
  pub confidence : F
  pub actions : List (ReasoningAction F)
  pub findings : List (Finding F)
  pub metrics : ReasonerMetrics F

pub record RejectedAction (F : Type 0) : Type 0 where
  pub action : ReasoningAction F
  pub reason : String

pub data OrchestrationStrategy : Type 0 where
  sequential parallel weighted_vote priority consensus : OrchestrationStrategy
  other_strategy : String → OrchestrationStrategy

pub record ReasoningCycle (F : Type 0) : Type 0 where
  pub cycle_id : String
  pub started_at : ℕ
  pub completed_at : ℕ
  pub reasoners : List (ReasoningResult F)
  pub applied_actions : List (ReasoningAction F)
  pub rejected_actions : List (RejectedAction F)
  pub duration : ℕ
  pub strategy : OrchestrationStrategy
