-- ===== src/Model/Session.antt =====
-- internal/model/session.go. A time counts nanoseconds since Go's zero time.
use incident_investigator.Prelude.{
  ℕ, String, Bool, true, false, Option, List, [], ◌∷◌, ◌++◌, ◌==◌, any,
}
use incident_investigator.Model.Evidence.{
  Category, Evidence, EvidenceRequest, Hypothesis, Contradiction, ReasoningTrace,
}
use incident_investigator.Model.Protocol.{
  Goal, InvestigationPlan, QuestionGraph, ProtocolMetrics, ProtocolTurn,
}
use incident_investigator.Model.Graph.{GraphView}
use incident_investigator.Model.Investigation.{
  InvestigationState, SufficiencyReport, NextStep, JournalEntry, CoverageReport, EvidenceImportance,
  InvestigationProgress, ConfidenceBreakdown, ReasoningMetrics, TimelineEntry, BlastRadius,
}
use incident_investigator.Model.Reasoning.{ReasoningCycle}

pub data Status : Type 0 where
  collecting ready completed : Status

abbrev pub is_completed : Status → Bool
is_completed Status.completed = true
is_completed _ = false

pub record TimeWindow : Type 0 where
  pub start : ℕ
  pub end : ℕ

pub record HistoryEntry : Type 0 where
  pub timestamp : ℕ
  pub action : String
  pub detail : String

pub record Session (F : Type 0) : Type 0 where
  pub id : String
  pub question : String
  pub service : String
  pub time_window : TimeWindow
  pub goal : Goal
  pub evidence : List Evidence
  pub graph : Option (GraphView F)
  pub hypotheses : List (Hypothesis F)
  pub timeline : List TimelineEntry
  pub contradictions : List Contradiction
  pub blast_radius : BlastRadius F
  pub required_evidence : List EvidenceRequest
  pub missing_evidence : List EvidenceRequest
  pub confidence : F
  pub progress : F
  pub status : Status
  pub state : InvestigationState
  pub sufficiency : SufficiencyReport F
  pub investigation_progress : InvestigationProgress F
  pub strategy : List (NextStep F)
  pub coverage : CoverageReport F
  pub evidence_importance : List (EvidenceImportance F)
  pub reasoning_trace : List (ReasoningTrace F)
  pub journal : List (JournalEntry F)
  pub confidence_breakdown : ConfidenceBreakdown F
  pub metrics : ReasoningMetrics F
  pub reasoning_cycles : List (ReasoningCycle F)
  pub plan : Option (InvestigationPlan F)
  pub question_graph : QuestionGraph
  pub protocol_metrics : ProtocolMetrics F
  pub last_turn : ProtocolTurn F
  pub history : List HistoryEntry
  pub created_at : ℕ
  pub updated_at : ℕ
  pub prev_hypotheses : List (Hypothesis F)

-- Session.HasCategory
unfoldable pub has_category : {F : Type 0} → Session F → Category → Bool
has_category s c = any (λ (e : Evidence). e.category == c) s.evidence

module _ {F : Type 0} where
  -- AddHistory
  unfoldable pub add_history : String → String → ℕ → Session F → Session F
  add_history action detail now s = record s {
    history = s.history ++ record { timestamp = now; action = action; detail = detail } ∷ [];
  }

  -- AddJournal
  unfoldable pub add_journal : String → String → F → ℕ → Session F → Session F
  add_journal event detail confidence now s = record s {
    journal =
        s.journal
        ++ record { timestamp = now; event = event; detail = detail; confidence = confidence } ∷ [];
  }

  -- SnapshotHypotheses
  unfoldable pub snapshot_hypotheses : Session F → Session F
  snapshot_hypotheses s = record s { prev_hypotheses = s.hypotheses }
