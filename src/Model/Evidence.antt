-- ===== src/Model/Evidence.antt =====
-- internal/model/evidence.go, category.go, hypothesis.go and contradiction.go.
use incident_investigator.Prelude.{ℕ, Option, String, Bool, true, false, List, [], ◌∷◌, ◌==◌, any}
use incident_investigator.Prelude.Dict.{Dict}

-- A category is a text that the client sends.
abbrev pub Category : Type 0
Category = String

abbrev pub application_logs : Category
application_logs = "application_logs"

abbrev pub infrastructure_events : Category
infrastructure_events = "infrastructure_events"

abbrev pub deployment_events : Category
deployment_events = "deployment_events"

abbrev pub alert_events : Category
alert_events = "alert_events"

abbrev pub metrics_category : Category
metrics_category = "metrics"

abbrev pub trace_events : Category
trace_events = "trace_events"

abbrev pub configuration_changes : Category
configuration_changes = "configuration_changes"

abbrev pub network_events : Category
network_events = "network_events"

abbrev pub database_events : Category
database_events = "database_events"

abbrev pub security_events : Category
security_events = "security_events"

abbrev pub human_context : Category
human_context = "human_context"

abbrev pub custom_category : Category
custom_category = "custom"

-- AllCategories
unfoldable pub all_categories : List Category
all_categories =
    application_logs ∷ infrastructure_events ∷ deployment_events ∷ alert_events ∷ metrics_category
    ∷ trace_events ∷ configuration_changes ∷ network_events ∷ database_events ∷ security_events
    ∷ human_context ∷ custom_category ∷ []

-- Category.Valid
unfoldable pub is_valid_category : Category → Bool
unfolding all_categories
is_valid_category c = any (λ known. c == known) all_categories

-- A value of `map[string]any`. Of a value that is neither a truth value nor a text the model holds
-- what `fmt.Sprint` prints for it, and of a number also what a conversion to int gives, where that
-- is not negative.
pub data Value : Type 0 where
  flag : Bool → Value
  chars other : String → Value
  number : Option ℕ → String → Value

-- A timestamp counts nanoseconds since Go's zero time.
pub record Evidence : Type 0 where
  pub id : String
  pub timestamp : ℕ
  pub category : Category
  pub source : String
  pub entity : String
  pub summary : String
  pub payload : Dict Value

pub data Priority : Type 0 where
  high medium low : Priority

-- Priority.Weight
unfoldable pub weight : Priority → ℕ
weight high = 3
weight medium = 2
weight low = 1

pub record EvidenceRequest : Type 0 where
  pub category : Category
  pub priority : Priority
  pub reason : String

pub data HypothesisStatus : Type 0 where
  proposed supported leading refuted confirmed : HypothesisStatus

abbrev pub is_refuted : HypothesisStatus → Bool
is_refuted refuted = true
is_refuted _ = false

-- internal/model/investigation.go
pub record ReasoningTrace (F : Type 0) : Type 0 where
  pub observation_id : String
  pub hypothesis_id : String
  pub reason : String
  pub confidence_change : F
  pub supporting_evidence : List String
  pub contradicting_evidence : List String
  pub timestamp : ℕ

pub record Hypothesis (F : Type 0) : Type 0 where
  pub id : String
  pub statement : String
  pub confidence : F
  pub status : HypothesisStatus
  pub rationale : String
  pub supporting_evidence : List String
  pub conflicting_evidence : List String
  pub reasoning_trace : List (ReasoningTrace F)

pub record Contradiction : Type 0 where
  pub id : String
  pub description : String
  pub severity : String
  pub evidence_refs : List String
