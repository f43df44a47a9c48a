-- ===== src/Runtime/Operations.antt =====
-- internal/runtime/runtime.go: Get, ResolveQuestion and Finish. The report of Finish is not modelled.
use incident_investigator.Prelude.{
  ℕ, String, Bool, true, Option, none, some, is_some, Result, ok, err, if◌then◌else◌,
}
use incident_investigator.Prelude.Dict.{Dict}
use incident_investigator.Model.Platform.{Platform}
use incident_investigator.Model.Investigation.{InvestigationState}
use incident_investigator.Model.Protocol.{QuestionResolution, InvestigationPlan}
use incident_investigator.Model.Session.{Session, Status, is_completed, add_history, add_journal}
use incident_investigator.Signals.Analysis.{analyze}
use incident_investigator.Protocol.Playbook.{Playbook}
use incident_investigator.Protocol.Resolving.{resolve_question}
use incident_investigator.Runtime.Sessions.{RuntimeError, Outcome, with_session}
use incident_investigator.Runtime.Recompute.{Setup, Moment, Calibration, recompute}

pub record ResolveQuestionInput : Type 0 where
  pub session_id : String
  pub question_id : String
  pub confirmed : Bool
  pub reason : String

module _ (P : Platform) (R : Setup P) where
  open P use {Float}

  -- Get
  unfoldable pub refresh : Moment Float → Session Float → Session Float × Outcome (Session Float)
  unfolding recompute
  refresh w s = let done = recompute P R w s in (done, ok done)

  unfoldable pub get_session :
      String → Moment Float → Dict (Session Float) → Dict (Session Float) × Outcome (Session Float)
  unfolding with_session refresh
  get_session id w sessions = with_session id (refresh w) sessions

  -- ResolveQuestion of the runtime, behind the call of the protocol engine.
  unfoldable pub record_answer :
      Moment Float
      → ResolveQuestionInput
      → Session Float
      → Result String (Session Float × InvestigationPlan Float × QuestionResolution Float)
      → Session Float × Outcome (QuestionResolution Float × Session Float)
  unfolding add_journal analyze
  record_answer w input s (err message) = (s, err (RuntimeError.protocol_error message))
  record_answer w input s (ok (moved, plan, res)) =
      let answered : Session Float = record moved { plan = some plan } in
      let scored : Session Float = record answered {
        confidence =
            R.confidence answered (analyze P answered.evidence) answered.hypotheses
              answered.contradictions answered.progress;
      } in
      let noted =
        add_journal "question_resolved" input.question_id scored.confidence w.now scored in
      let done : Session Float = record noted { updated_at = w.now } in (done, ok (res, done))

  -- The protocol engine on the plan. Without a plan Go would follow a nil pointer.
  unfoldable pub answer_on :
      Moment Float
      → ResolveQuestionInput
      → Playbook Float
      → Session Float
      → Option (InvestigationPlan Float)
      → Session Float × Outcome (QuestionResolution Float × Session Float)
  unfolding resolve_question record_answer
  answer_on w input pb s none = (s, err RuntimeError.missing_plan)
  answer_on w input pb s (some plan) =
      record_answer w input s
        (resolve_question P pb input.question_id input.confirmed input.reason w.now s plan)

  -- The protocol engine of the goal, on the session once it has a plan.
  unfoldable pub answer_with :
      Moment Float
      → ResolveQuestionInput
      → Session Float
      → Option (Playbook Float)
      → Session Float × Outcome (QuestionResolution Float × Session Float)
  unfolding answer_on recompute
  answer_with w input s none = (s, err RuntimeError.no_playbook)
  answer_with w input s (some pb) =
      let planned = if is_some s.plan then s else recompute P R w s in
      answer_on w input pb planned planned.plan

  -- The function that ResolveQuestion passes to WithSession.
  unfoldable pub answer :
      Moment Float
      → ResolveQuestionInput
      → Session Float
      → Session Float × Outcome (QuestionResolution Float × Session Float)
  unfolding answer_with
  answer w input s =
      if is_completed s.status
      then (s, err RuntimeError.session_completed)
      else answer_with w input s (R.playbook_for s.goal)

  -- ResolveQuestion
  unfoldable pub answer_question :
      Moment Float
      → ResolveQuestionInput
      → Dict (Session Float)
      → Dict (Session Float) × Outcome (QuestionResolution Float × Session Float)
  unfolding with_session answer
  answer_question w input sessions = with_session input.session_id (answer w input) sessions

  -- What Finish does with the calibration that it asks to be recorded.
  unfoldable pub archive : Option (Calibration Float) → ℕ → Session Float → Session Float
  unfolding add_journal
  archive none now s = s
  archive (some cal) now s =
      add_journal "intelligence_archived" cal.reason cal.calibrated_confidence now
        (record s { confidence = cal.calibrated_confidence })

  -- What Finish does to a session that is not completed.
  unfoldable pub conclude : ℕ → Session Float → Session Float
  unfolding archive add_journal add_history
  conclude now s =
      let ended : Session Float = record s {
        status = Status.completed;
        state = InvestigationState.completed;
        updated_at = now;
      } in
      let archived = archive (R.calibrate true ended) now ended in
      add_journal "investigation_completed" "final report generated" archived.confidence now
        (add_history "finished" "final report generated" now archived)

  -- The function that Finish passes to WithSession.
  unfoldable pub close : Moment Float → Session Float → Session Float × Outcome (Session Float)
  unfolding recompute conclude
  close w s =
      let latest = recompute P R w s in
      let done = if is_completed latest.status then latest else conclude w.now latest in
      (done, ok done)

  -- Finish
  unfoldable pub finish :
      String → Moment Float → Dict (Session Float) → Dict (Session Float) × Outcome (Session Float)
  unfolding with_session close
  finish id w sessions = with_session id (close w) sessions
