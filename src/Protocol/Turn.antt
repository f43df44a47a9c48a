-- ===== src/Protocol/Turn.antt =====
-- One turn of the protocol engine: Run, deriveStage, computeProtocolMetrics, buildQuestionGraph and
-- activeHypothesisIDs of internal/engine/protocol/engine.go.
pub mod Accounts
pub mod Continuity
use incident_investigator.Prelude.{
  ℕ, ltb, ◌==◌, ◌||◌, ◌&&◌, not, String, Bool, true, false, Option, none, some, List, [], ◌∷◌, ◌++◌,
  ◌<>◌, filter, map, foldl, length, if◌then◌else◌,
}
use incident_investigator.Model.Platform.{Platform, round1, sum}
use incident_investigator.Model.Evidence.{Hypothesis, is_refuted}
use incident_investigator.Model.Protocol.{
  Question, InvestigationPlan, QuestionResolution, ProtocolEvidenceRequest, ProtocolMetrics,
  ProtocolTurn, QuestionGraph, QuestionGraphNode, QuestionGraphEdge, Stage, is_answered,
  is_rejected, is_fulfilled,
}
use incident_investigator.Model.Session.{Session, is_completed}
use incident_investigator.Model.Signals.{Signals}
use incident_investigator.Protocol.Playbook.{Playbook}
use incident_investigator.Protocol.Questions.{ensure_questions, generate_dynamic, is_open}
use incident_investigator.Protocol.Requests.{sync_evidence_requests}
use incident_investigator.Protocol.Effects.{apply_playbook_effects}
use incident_investigator.Protocol.Resolving.{resolve_questions, update_plan_lists}

module _ {F : Type 0} where
  -- activeHypothesisIDs
  unfoldable pub active_hypothesis_ids : List (Hypothesis F) → List String
  active_hypothesis_ids hs =
      map (λ (h : Hypothesis F). h.id) (filter (λ (h : Hypothesis F). not (is_refuted h.status)) hs)

  -- deriveStage on a session with a plan.
  unfoldable pub derive_stage : Session F → InvestigationPlan F → Stage
  derive_stage s plan =
      if is_completed s.status
      then Stage.completed
      else if not (ltb 0 (length plan.open_questions))
          && ltb 0 (length plan.completed_questions)
          && s.sufficiency.can_answer
      then Stage.completed
      else plan.current_stage

  abbrev node_of : Question F → QuestionGraphNode
  node_of q = record { question_id = q.id; title = q.title; status = q.status }

  unfoldable pub dependency_edges : List (Question F) → List QuestionGraphEdge
  dependency_edges [] = []
  dependency_edges (q ∷ qs) =
      map (λ dep. record { from = dep; to = q.id; relation = "depends_on" }) q.depends_on
      ++ dependency_edges qs

  -- buildQuestionGraph
  unfoldable pub build_question_graph : InvestigationPlan F → QuestionGraph
  build_question_graph plan = record {
    nodes = map node_of plan.questions;
    edges = dependency_edges plan.questions;
  }

module _ (P : Platform) where
  open P use {Float, of_ℕ, minus, over}

  -- computeProtocolMetrics on a session with a plan. The session's metrics count the iterations.
  unfoldable pub compute_protocol_metrics :
      Session Float → InvestigationPlan Float → Float → ProtocolMetrics Float
  compute_protocol_metrics s plan previous =
      let history = length plan.resolution_history in
      let confidences =
        map (λ (r : QuestionResolution Float). r.confidence) plan.resolution_history in
      record {
        total_questions = length plan.questions;
        resolved_questions =
            length (filter (λ (q : Question Float). is_answered q.status) plan.questions);
        pending_questions = length (filter is_open plan.questions);
        rejected_questions =
            length (filter (λ (q : Question Float). is_rejected q.status) plan.questions);
        average_resolution_confidence =
            if ltb 0 history then round1 P (over (sum P confidences) (of_ℕ history)) else of_ℕ 0;
        evidence_requests_created = length plan.evidence_requests;
        evidence_requests_completed = length (
            filter (λ (r : ProtocolEvidenceRequest Float). is_fulfilled r.status)
              plan.evidence_requests);
        average_confidence_gain = round1 P (minus s.confidence previous);
        planner_iterations = s.metrics.planner_iterations;
      }

  -- initPlan
  unfoldable pub init_plan : Playbook Float → Session Float → InvestigationPlan Float
  init_plan pb s = record {
    id = "plan-" <> s.id;
    goal = s.goal;
    current_stage = Stage.planning;
    questions = [];
    active_hypotheses = [];
    completed_questions = [];
    open_questions = [];
    evidence_requests = [];
    confidence = of_ℕ 0;
    resolution_history = [];
    playbook_id = pb.id;
  }

  unfoldable pub plan_of : Playbook Float → Session Float → InvestigationPlan Float
  unfolding init_plan
  plan_of pb s = elim s.plan [ none ↦ init_plan pb s | some plan ↦ plan ]

  -- A session and its plan inside a turn, with the new questions of the turn.
  pub record Working : Type 0 where
    pub session : Session Float
    pub plan : InvestigationPlan Float
    pub new_questions : List (Question Float)

  -- ensureQuestions, generateDynamicQuestions and syncEvidenceRequests, which a turn calls twice.
  unfoldable pub extend_plan : Playbook Float → Signals → Working → Working
  extend_plan pb sig w =
      let ensured = ensure_questions P pb w.plan in
      let g = generate_dynamic P pb sig ensured.questions w.new_questions in
      let synced =
        sync_evidence_requests P w.session (record ensured { questions = g.questions }) in
      record { session = synced.0; plan = synced.1; new_questions = g.new_questions }

  -- The part of Run up to updatePlanLists.
  unfoldable pub advance :
      Playbook Float → Session Float → Signals → ℕ → Working × List (QuestionResolution Float)
  advance pb s sig now =
      let w =
        extend_plan pb sig (record { session = s; plan = plan_of pb s; new_questions = [] }) in
      let resolved = resolve_questions P w.session sig now w.plan in
      let w2 = extend_plan pb sig (record w { plan = resolved.0 }) in
      let moved = apply_playbook_effects P pb resolved.1 w2.session w2.plan in
      (record w2 { session = moved.0; plan = update_plan_lists moved.0 moved.1 }, resolved.1)

  -- Run: the session that it leaves, and the turn.
  unfoldable pub run :
      Playbook Float → Session Float → Signals → ℕ → Float → Session Float × ProtocolTurn Float
  run pb s sig now previous =
      let done = advance pb s sig now in
      let session = done.0.session in
      let plan = done.0.plan in
      let turn : ProtocolTurn Float = record {
        resolved_questions = done.1;
        new_questions = done.0.new_questions;
        confidence_delta = of_ℕ 0;
      } in
      (
        record session {
          question_graph = build_question_graph plan;
          protocol_metrics = compute_protocol_metrics session plan previous;
          last_turn = turn;
          plan = some (record plan {
            confidence = session.confidence;
            current_stage = derive_stage session plan;
            active_hypotheses = active_hypothesis_ids session.hypotheses;
          });
        },
        turn,
      )
