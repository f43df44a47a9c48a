-- ===== src/Runtime/Lifecycle.antt =====
-- When a session counts as completed.
use incident_investigator.Prelude.{◌≡◌, ◌∙◌, ap, arith, ℕ, Bool, true, ◌||◌, Option}
use incident_investigator.Model.Platform.{Platform}
use incident_investigator.Model.Investigation.{
  InvestigationState, ReasoningMetrics, SufficiencyReport,
}
use incident_investigator.Model.Reasoning.{ReasoningAction, ActionType}
use incident_investigator.Model.Session.{Session, is_completed, snapshot_hypotheses}
use incident_investigator.Graph.Store.{MemoryStore}
use incident_investigator.Reasoning.Changes.{
  adjust_confidence, set_hypothesis_status, append_hypothesis, append_contradiction, link_nodes,
  append_question, set_question_status, append_evidence_request, change_plan, store_plan, recommend,
}
use incident_investigator.Reasoning.Applier.{apply_as}
use incident_investigator.Engine.Progress.{compute_metrics}
use incident_investigator.Engine.Trace.{update_reasoning_trace, apply_hypothesis_traces}
use incident_investigator.StateMachine.{begin_reasoning, transition}
use incident_investigator.Runtime.Recompute.{
  Setup, Moment, settle, prepare, recompute, derive_status, is_completed_state,
}
use incident_investigator.Runtime.Ending.{ending, ending-update, talked, kept-talk}

-- The status or the state says so.
abbrev pub ends : Bool × InvestigationState → Bool
ends p = p.0 || is_completed_state p.1

module _ {F : Type 0} where
  unfoldable pub is_over : Session F → Bool
  unfolding ending
  is_over s = ends (ending s)

module _ (P : Platform) (R : Setup P) where
  ends-apply_as :
      (t : ActionType) (s : Session P.Float) (g : Option (MemoryStore P.Float))
      (a : ReasoningAction P.Float)
      → ends (ending s) ≡ true
      → ends (ending (apply_as P t s g a).session) ≡ true
  unfolding apply_as ending adjust_confidence set_hypothesis_status append_hypothesis
      append_contradiction link_nodes append_question set_question_status append_evidence_request
      change_plan store_plan recommend
  ends-apply_as t s g a h = ground arith

  transition_stays :
      (current : InvestigationState) (s : Session P.Float) (report : SufficiencyReport P.Float)
      → is_completed_state current ≡ true
      → is_completed_state (transition P R.high_confidence current s report) ≡ true
  unfolding transition
  transition_stays current s report h = ground arith

  derive_status_over :
      (s : Session P.Float)
      → is_over s ≡ true
      → is_completed (
          derive_status P R
            (record s { state = transition P R.high_confidence s.state s s.sufficiency }))
        ≡ true
  unfolding derive_status is_over ending
  derive_status_over s h = ground (arith, transition_stays s.state s s.sufficiency)

  settle_over :
      (now : ℕ) (m : ReasoningMetrics P.Float) (s : Session P.Float)
      → is_over s ≡ true
      → is_completed (settle P R now m s).status ≡ true
  unfolding settle apply_hypothesis_traces is_over ending
  settle_over now m s h =
      let traced = apply_hypothesis_traces (update_reasoning_trace P now s) in
      let counted : Session P.Float = record traced {
        metrics = compute_metrics P traced traced.coverage m;
      } in
      derive_status_over counted (ap ends (ending-update P now s) ∙ h)

  is_over-prepare : (s : Session P.Float) → is_over s ≡ true → is_over (prepare P R s) ≡ true
  unfolding prepare is_over snapshot_hypotheses begin_reasoning ending
  is_over-prepare s h = ground arith

  -- A session whose status or whose state is Completed has the status Completed after every
  -- recompute, whatever the reasoners, the playbook and the calibration do.
  pub recompute_stays_completed :
      (w : Moment P.Float) (s : Session P.Float)
      → is_over s ≡ true
      → is_completed (recompute P R w s).status ≡ true
  unfolding recompute talked is_over
  recompute_stays_completed w s h =
      settle_over w.now s.metrics (talked P R w s)
        (kept-talk P (λ p. ends p ≡ true) ends-apply_as R w s (is_over-prepare s h))
