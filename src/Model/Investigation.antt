-- ===== src/Model/Investigation.antt =====
-- internal/model/investigation.go, timeline.go and blast.go: what the engines conclude. `F` is the
-- type that stands for float64, and a time counts nanoseconds.
use incident_investigator.Prelude.{ℕ, String, Bool, List}
use incident_investigator.Model.Evidence.{Category, EvidenceRequest, Priority}

pub data InvestigationState : Type 0 where
  started collecting_evidence reasoning waiting_for_evidence : InvestigationState
  high_confidence completed failed : InvestigationState

pub record BlockingQuestion : Type 0 where
  pub id : String
  pub question : String
  pub priority : Priority
  pub reason : String

pub record SufficiencyReport (F : Type 0) : Type 0 where
  pub can_answer : Bool
  pub overall_confidence : F
  pub coverage : F
  pub blocking_questions : List BlockingQuestion
  pub missing_evidence : List EvidenceRequest
  pub reason : String

pub record NextStep (F : Type 0) : Type 0 where
  pub priority : ℕ
  pub category : Category
  pub reason : String
  pub expected_confidence_gain : F
  pub blocks_hypothesis : List String

pub record JournalEntry (F : Type 0) : Type 0 where
  pub timestamp : ℕ
  pub event : String
  pub detail : String
  pub confidence : F

pub record CategoryCoverage (F : Type 0) : Type 0 where
  pub category : Category
  pub percent : F
  pub count : ℕ

pub record CoverageReport (F : Type 0) : Type 0 where
  pub categories : List (CategoryCoverage F)
  pub overall : F

pub record EvidenceImportance (F : Type 0) : Type 0 where
  pub evidence_id : String
  pub category : Category
  pub summary : String
  pub score : F

pub record InvestigationProgress (F : Type 0) : Type 0 where
  pub percent_complete : F
  pub confidence : F
  pub coverage : F
  pub remaining_questions : ℕ

pub record ConfidenceBreakdown (F : Type 0) : Type 0 where
  pub leading_hypothesis : F
  pub separation : F
  pub corroboration : F
  pub temporal : F
  pub coverage_factor : F
  pub contradiction_penalty : F
  pub overall : F

pub record ReasoningMetrics (F : Type 0) : Type 0 where
  pub hypothesis_count : ℕ
  pub rejected_hypotheses : ℕ
  pub contradiction_count : ℕ
  pub coverage : F
  pub evidence_count : ℕ
  pub reasoning_iterations : ℕ
  pub planner_iterations : ℕ
  pub average_confidence_gain : F

pub record TimelineEntry : Type 0 where
  pub timestamp : ℕ
  pub description : String
  pub category : Category
  pub entity : String
  pub evidence_refs : List String

pub record ScopedItem (F : Type 0) : Type 0 where
  pub name : String
  pub confidence : F

pub record BlastRadius (F : Type 0) : Type 0 where
  pub services : List (ScopedItem F)
  pub regions : List (ScopedItem F)
  pub customers : List (ScopedItem F)
  pub apis : List (ScopedItem F)
