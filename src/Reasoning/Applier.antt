-- ===== src/Reasoning/Applier.antt =====
-- internal/reasoning/applier.go: the switch of applyOne.
pub mod Loop
pub mod Frame
pub mod Identifiers
pub mod Closed
pub mod Accounts
use incident_investigator.Prelude.{Option, none, some, Bool, true, false}
use incident_investigator.Model.Platform.{Platform}
use incident_investigator.Model.Evidence.{HypothesisStatus}
use incident_investigator.Model.Investigation.{InvestigationState}
use incident_investigator.Model.Protocol.{QuestionStatus}
use incident_investigator.Model.Reasoning.{ReasoningAction, ActionType}
use incident_investigator.Model.Session.{Session, Status}
use incident_investigator.Graph.Store.{MemoryStore}
use incident_investigator.Reasoning.Changes.{
  Applied, changed, adjust_confidence, append_hypothesis, set_hypothesis_status,
  append_contradiction, link_nodes, append_question, set_question_status, append_evidence_request,
  recommend, clamp_confidence,
}

module _ (P : Platform) where
  open P use {Float, neg}

  -- The switch of applyOne.
  unfoldable pub apply_as :
      ActionType
      → Session Float
      → Option (MemoryStore Float)
      → ReasoningAction Float
      → Applied Float
  unfolding adjust_confidence append_hypothesis set_hypothesis_status append_contradiction
      link_nodes append_question set_question_status append_evidence_request recommend
      clamp_confidence
  apply_as ActionType.increase_hypothesis_confidence s g a =
      adjust_confidence P a.hypothesis_id a.delta s g
  apply_as ActionType.decrease_hypothesis_confidence s g a =
      adjust_confidence P a.hypothesis_id (neg a.delta) s g
  apply_as ActionType.create_hypothesis s g a = append_hypothesis a.hypothesis s g
  apply_as ActionType.reject_hypothesis s g a =
      set_hypothesis_status a.hypothesis_id HypothesisStatus.refuted s g
  apply_as ActionType.promote_hypothesis s g a =
      set_hypothesis_status a.hypothesis_id HypothesisStatus.leading s g
  apply_as ActionType.replace_hypotheses s g a =
      changed true (record s { hypotheses = a.hypotheses }) g
  apply_as ActionType.set_contradictions s g a =
      changed true (record s { contradictions = a.contradictions }) g
  apply_as ActionType.mark_contradiction s g a = append_contradiction a.contradiction s g
  apply_as ActionType.set_timeline s g a = changed true (record s { timeline = a.timeline }) g
  apply_as ActionType.update_graph s g a = elim a.graph [
    | none ↦ changed false s g
    | some v ↦ changed true (record s { graph = some v }) g
  ]
  apply_as ActionType.set_blast_radius s g a =
      changed true (record s { blast_radius = a.blast_radius }) g
  apply_as ActionType.set_evidence_plan s g a =
      changed true
        (record s {
          required_evidence = a.required_evidence;
          missing_evidence = a.missing_evidence;
        })
        g
  apply_as ActionType.set_coverage s g a = changed true (record s { coverage = a.coverage }) g
  apply_as ActionType.set_strategy s g a = changed true (record s { strategy = a.strategy }) g
  apply_as ActionType.set_sufficiency s g a = elim a.sufficiency [
    | none ↦ changed false s g
    | some r ↦ changed true (record s { sufficiency = r }) g
  ]
  apply_as ActionType.set_confidence s g a =
      changed true (record s { confidence = clamp_confidence P a.confidence }) g
  apply_as ActionType.set_progress s g a =
      changed true (record s { progress = clamp_confidence P a.progress }) g
  apply_as ActionType.set_investigation_progress s g a = elim a.investigation_progress [
    | none ↦ changed false s g
    | some p ↦ changed true (record s { investigation_progress = p }) g
  ]
  apply_as ActionType.set_confidence_breakdown s g a = elim a.confidence_breakdown [
    | none ↦ changed false s g
    | some b ↦ changed true (record s { confidence_breakdown = b }) g
  ]
  apply_as ActionType.set_evidence_importance s g a =
      changed true (record s { evidence_importance = a.evidence_importance }) g
  apply_as ActionType.link_graph_nodes s g a = link_nodes a.graph_edge s g
  apply_as ActionType.create_question s g a = append_question a.question s g
  apply_as ActionType.resolve_question s g a =
      set_question_status a.question_id QuestionStatus.answered s g
  apply_as ActionType.reject_question s g a =
      set_question_status a.question_id QuestionStatus.rejected s g
  apply_as ActionType.create_evidence_request s g a = append_evidence_request a.evidence_request s g
  apply_as ActionType.create_recommendation s g a = recommend P a.recommendation s g
  apply_as ActionType.mark_investigation_complete s g a =
      changed true (record s { state = InvestigationState.completed; status = Status.completed }) g
  apply_as (ActionType.unknown_action name) s g a = changed false s g

  -- applyOne
  unfoldable pub apply_one :
      Session Float → Option (MemoryStore Float) → ReasoningAction Float → Applied Float
  unfolding apply_as
  apply_one s g a = apply_as a.type s g a
