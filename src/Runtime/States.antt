-- ===== src/Runtime/States.antt =====
-- The state of an investigation after a recompute.
use incident_investigator.Prelude.{◌≡◌, arith, ap, ◌∙◌, ℕ, Bool, true, not, ◌&&◌, ◌||◌, Option}
use incident_investigator.Model.Platform.{Platform}
use incident_investigator.Model.Investigation.{InvestigationState, ReasoningMetrics}
use incident_investigator.Model.Reasoning.{ReasoningAction, ActionType}
use incident_investigator.Model.Session.{Session, snapshot_hypotheses}
use incident_investigator.Graph.Store.{MemoryStore}
use incident_investigator.Reasoning.Changes.{
  adjust_confidence, set_hypothesis_status, append_hypothesis, append_contradiction, link_nodes,
  append_question, set_question_status, append_evidence_request, change_plan, store_plan, recommend,
}
use incident_investigator.Reasoning.Applier.{apply_as}
use incident_investigator.Engine.Progress.{compute_metrics}
use incident_investigator.Engine.Trace.{update_reasoning_trace, apply_hypothesis_traces}
use incident_investigator.StateMachine.{begin_reasoning, is_terminal, is_started}
use incident_investigator.StateMachine.Order.{Placed, is_passing, transition-Placed}
use incident_investigator.Runtime.Recompute.{Setup, Moment, recompute, prepare, settle}
use incident_investigator.Runtime.Ending.{ending, ending-update, talked, kept-talk}

-- The states between BeginReasoning and Transition.
abbrev is_begun : InvestigationState → Bool
is_begun state = not (is_started state) && (is_terminal state || is_passing state)

module _ (P : Platform) (R : Setup P) where
  begun-apply_as :
      (t : ActionType) (s : Session P.Float) (g : Option (MemoryStore P.Float))
      (a : ReasoningAction P.Float)
      → is_begun (ending s).1 ≡ true
      → is_begun (ending (apply_as P t s g a).session).1 ≡ true
  unfolding apply_as ending adjust_confidence set_hypothesis_status append_hypothesis
      append_contradiction link_nodes append_question set_question_status append_evidence_request
      change_plan store_plan recommend
  begun-apply_as t s g a h = ground arith

  begun-prepare : (s : Session P.Float) → is_begun (ending (prepare P R s)).1 ≡ true
  unfolding prepare snapshot_hypotheses begin_reasoning ending
  begun-prepare s = ground arith

  settle-Placed :
      (now : ℕ) (m : ReasoningMetrics P.Float) (s : Session P.Float)
      → is_begun (ending s).1 ≡ true
      → Placed P R.high_confidence (settle P R now m s) (settle P R now m s).state
  unfolding settle apply_hypothesis_traces ending
  settle-Placed now m s h =
      let traced = apply_hypothesis_traces (update_reasoning_trace P now s) in
      let counted : Session P.Float = record traced {
        metrics = compute_metrics P traced traced.coverage m;
      } in
      let begun : is_begun counted.state ≡ true =
        ap (λ (p : Bool × InvestigationState). is_begun p.1) (ending-update P now s) ∙ h in
      let placed =
        transition-Placed P R.high_confidence counted.state counted (ground arith)
          (λ running. ground arith) in
      record {
        left_behind = placed.left_behind;
        confident = placed.confident;
        waits = placed.waits;
        collects = placed.collects;
        answerable = placed.answerable;
        needy = placed.needy;
      }

  -- Whatever the reasoners, the playbook and the calibration do, the state after a recompute agrees
  -- with the evidence, the confidence and the report that the session then has. The state is never
  -- Started or Reasoning. In HighConfidence the session has evidence, and its confidence is at least
  -- the threshold. In WaitingForEvidence it has evidence and a need, which is a blocking question or
  -- missing evidence. In CollectingEvidence with evidence it has no need and a confidence below the
  -- threshold. A session with evidence that is not completed or failed is in HighConfidence if the
  -- report says that it can be answered and its confidence is at least the threshold, and in
  -- WaitingForEvidence if the report says that it cannot and it has a need.
  pub recompute-Placed :
      (w : Moment P.Float) (s : Session P.Float)
      → Placed P R.high_confidence (recompute P R w s) (recompute P R w s).state
  unfolding recompute talked
  recompute-Placed w s =
      settle-Placed w.now s.metrics (talked P R w s)
        (kept-talk P (λ p. is_begun p.1 ≡ true) begun-apply_as R w s (begun-prepare s))
