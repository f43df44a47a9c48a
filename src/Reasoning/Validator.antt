-- ===== src/Reasoning/Validator.antt =====
-- internal/reasoning/validator.go. No error is `none`.
use incident_investigator.Prelude.{
  String, Bool, ◌||◌, not, Option, none, some, ◌==◌, ◌<>◌, find, if◌then◌else◌,
}
use incident_investigator.Model.Platform.{Platform}
use incident_investigator.Model.Evidence.{Hypothesis, Contradiction}
use incident_investigator.Model.Graph.{GraphEdge}
use incident_investigator.Model.Protocol.{
  Question, QuestionStatus, InvestigationPlan, ProtocolEvidenceRequest, is_answered, is_rejected,
}
use incident_investigator.Model.Reasoning.{ReasoningAction, ActionType}
use incident_investigator.Model.Session.{Session}
use incident_investigator.Graph.Store.{MemoryStore, has_node}

-- Answered or rejected
unfoldable pub is_closed : QuestionStatus → Bool
is_closed status = is_answered status || is_rejected status

-- The payload checks: the identifier of a payload that is there must not be empty.
unfoldable pub check_contradiction : Option Contradiction → Option String
check_contradiction none = some "contradiction payload required"
check_contradiction (some c) = if c.id == "" then some "contradiction payload required" else none

-- The case of RejectHypothesis and PromoteHypothesis
unfoldable pub check_hypothesis_id : String → Option String
check_hypothesis_id id = if id == "" then some "hypothesis id required" else none

module _ {F : Type 0} where
  -- findQuestion
  unfoldable pub find_question : InvestigationPlan F → String → Option (Question F)
  find_question plan id = find (λ (q : Question F). q.id == id) plan.questions

  unfoldable pub check_hypothesis : Option (Hypothesis F) → Option String
  check_hypothesis none = some "hypothesis payload required"
  check_hypothesis (some h) = if h.id == "" then some "hypothesis payload required" else none

  unfoldable pub check_question : Option (Question F) → Option String
  check_question none = some "question payload required"
  check_question (some q) = if q.id == "" then some "question payload required" else none

  unfoldable pub check_request : Option (ProtocolEvidenceRequest F) → Option String
  check_request none = some "evidence request payload required"
  check_request (some r) = if r.id == "" then some "evidence request payload required" else none

module _ (P : Platform) where
  open P use {Float, of_ℕ, lt, le, quote, trim_space}

  -- The case of ResolveQuestion and RejectQuestion
  unfoldable pub check_found_question : String → Option (Question Float) → Option String
  unfolding is_closed
  check_found_question id none = some ("unknown question " <> quote id)
  check_found_question id (some q) =
      if is_closed q.status then some ("question " <> quote id <> " already resolved") else none

  unfoldable pub check_open_question : Option (InvestigationPlan Float) → String → Option String
  unfolding check_found_question find_question
  check_open_question none id =
      if id == "" then some "question id required" else some "no investigation plan"
  check_open_question (some plan) id =
      if id == ""
      then some "question id required"
      else check_found_question id (find_question plan id)

  -- The case of the two changes of a hypothesis' confidence
  unfoldable pub check_delta : String → Float → Option String
  check_delta id delta =
      if id == ""
      then some "hypothesis id required"
      else if le delta (of_ℕ 0)
      then some "delta must be positive"
      else if lt (of_ℕ 50) delta
      then some "delta exceeds limit (50)"
      else none

  -- The case of LinkGraphNodes: without a graph only the names of the ends are checked.
  unfoldable pub check_ends : Option (MemoryStore Float) → GraphEdge Float → Option String
  unfolding has_node
  check_ends none e = none
  check_ends (some g) e =
      if not (has_node e.from g)
      then some ("invalid from node " <> quote e.from)
      else if not (has_node e.to g)
      then some ("invalid to node " <> quote e.to)
      else none

  unfoldable pub check_edge : Option (MemoryStore Float) → Option (GraphEdge Float) → Option String
  unfolding check_ends
  check_edge g none = some "graph edge required"
  check_edge g (some e) =
      if (e.from == "") || (e.to == "") then some "edge endpoints required" else check_ends g e

  unfoldable pub check_recommendation : String → Option String
  check_recommendation text =
      if trim_space text == "" then some "recommendation text required" else none

  -- The switch of Validate, whose other cases accept.
  unfoldable pub validate_as :
      ActionType
      → Session Float
      → Option (MemoryStore Float)
      → ReasoningAction Float
      → Option String
  unfolding check_open_question check_delta check_edge check_recommendation check_hypothesis
      check_hypothesis_id check_contradiction check_question check_request
  validate_as ActionType.resolve_question s g a = check_open_question s.plan a.question_id
  validate_as ActionType.reject_question s g a = check_open_question s.plan a.question_id
  validate_as ActionType.increase_hypothesis_confidence s g a = check_delta a.hypothesis_id a.delta
  validate_as ActionType.decrease_hypothesis_confidence s g a = check_delta a.hypothesis_id a.delta
  validate_as ActionType.create_hypothesis s g a = check_hypothesis a.hypothesis
  validate_as ActionType.reject_hypothesis s g a = check_hypothesis_id a.hypothesis_id
  validate_as ActionType.promote_hypothesis s g a = check_hypothesis_id a.hypothesis_id
  validate_as ActionType.link_graph_nodes s g a = check_edge g a.graph_edge
  validate_as ActionType.mark_contradiction s g a = check_contradiction a.contradiction
  validate_as ActionType.create_question s g a = check_question a.question
  validate_as ActionType.create_evidence_request s g a = check_request a.evidence_request
  validate_as ActionType.create_recommendation s g a = check_recommendation a.recommendation
  validate_as _ s g a = none

  -- Validate
  unfoldable pub validate :
      Session Float → Option (MemoryStore Float) → ReasoningAction Float → Option String
  unfolding validate_as
  validate s g a = validate_as a.type s g a
