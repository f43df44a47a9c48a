-- ===== src/Model/Protocol.antt =====
-- internal/model/protocol.go
use incident_investigator.Prelude.{ℕ, String, Bool, true, false, Option, List}
use incident_investigator.Model.Evidence.{Category, Priority}

-- `unset_goal` and `unset_stage` are the empty text, and `unknown_goal` is any other text.
pub data Goal : Type 0 where
  root_cause timeline blast_radius deployment_verification performance_regression : Goal
  availability custom : Goal
  unset_goal : Goal
  unknown_goal : String → Goal

pub data Stage : Type 0 where
  planning question_generation evidence_collection question_resolution : Stage
  hypothesis_evaluation need_more_evidence completed : Stage
  unset_stage : Stage

pub data QuestionStatus : Type 0 where
  unknown waiting_for_evidence partially_answered answered rejected : QuestionStatus

abbrev pub is_answered : QuestionStatus → Bool
is_answered QuestionStatus.answered = true
is_answered _ = false

abbrev pub is_rejected : QuestionStatus → Bool
is_rejected QuestionStatus.rejected = true
is_rejected _ = false

pub data ResolutionStatus : Type 0 where
  confirmed rejected insufficient_evidence unknown : ResolutionStatus

abbrev pub is_confirmed_resolution : ResolutionStatus → Bool
is_confirmed_resolution ResolutionStatus.confirmed = true
is_confirmed_resolution _ = false

abbrev pub is_rejected_resolution : ResolutionStatus → Bool
is_rejected_resolution ResolutionStatus.rejected = true
is_rejected_resolution _ = false

pub data RequestStatus : Type 0 where
  open_request fulfilled : RequestStatus

abbrev pub is_fulfilled : RequestStatus → Bool
is_fulfilled fulfilled = true
is_fulfilled open_request = false

pub record QuestionResolution (F : Type 0) : Type 0 where
  pub question_id : String
  pub status : ResolutionStatus
  pub confidence : F
  pub reason : String
  pub supporting_evidence : List String
  pub contradicting_evidence : List String
  pub resolved_at : ℕ

pub record Question (F : Type 0) : Type 0 where
  pub id : String
  pub title : String
  pub description : String
  pub priority : ℕ
  pub status : QuestionStatus
  pub confidence : F
  pub required_evidence : List Category
  pub supporting_evidence : List String
  pub contradicting_evidence : List String
  pub resolution : Option (QuestionResolution F)
  pub depends_on : List String

pub record ProtocolEvidenceRequest (F : Type 0) : Type 0 where
  pub id : String
  pub question_id : String
  pub categories : List Category
  pub priority : Priority
  pub reason : String
  pub expected_confidence_gain : F
  pub status : RequestStatus

pub record InvestigationPlan (F : Type 0) : Type 0 where
  pub id : String
  pub goal : Goal
  pub current_stage : Stage
  pub questions : List (Question F)
  pub active_hypotheses : List String
  pub completed_questions : List String
  pub open_questions : List String
  pub evidence_requests : List (ProtocolEvidenceRequest F)
  pub confidence : F
  pub resolution_history : List (QuestionResolution F)
  pub playbook_id : String

pub record QuestionGraphNode : Type 0 where
  pub question_id : String
  pub title : String
  pub status : QuestionStatus

pub record QuestionGraphEdge : Type 0 where
  pub from : String
  pub to : String
  pub relation : String

pub record QuestionGraph : Type 0 where
  pub nodes : List QuestionGraphNode
  pub edges : List QuestionGraphEdge

pub record ProtocolMetrics (F : Type 0) : Type 0 where
  pub total_questions : ℕ
  pub resolved_questions : ℕ
  pub pending_questions : ℕ
  pub rejected_questions : ℕ
  pub average_resolution_confidence : F
  pub evidence_requests_created : ℕ
  pub evidence_requests_completed : ℕ
  pub average_confidence_gain : F
  pub planner_iterations : ℕ

pub record ProtocolTurn (F : Type 0) : Type 0 where
  pub resolved_questions : List (QuestionResolution F)
  pub new_questions : List (Question F)
  pub confidence_delta : F
