-- ===== src/Runtime/Frame.antt =====
-- What a recompute leaves of a session.
use incident_investigator.Prelude.{
  ◌≡◌, refl, ◌∙◌, ap, arith, ℕ, String, false, Option, none, some, List, [], ◌∷◌,
}
use incident_investigator.Prelude.Dict.{Dict}
use incident_investigator.Model.Platform.{Platform}
use incident_investigator.Model.Evidence.{Evidence, Hypothesis}
use incident_investigator.Model.Investigation.{ReasoningMetrics}
use incident_investigator.Model.Protocol.{InvestigationPlan, Goal, QuestionResolution}
use incident_investigator.Model.Session.{
  Session, TimeWindow, HistoryEntry, add_journal, snapshot_hypotheses,
}
use incident_investigator.Model.Signals.{Signals}
use incident_investigator.Signals.Analysis.{analyze}
use incident_investigator.Protocol.Effects.{apply_playbook_effects}
use incident_investigator.Protocol.Playbook.{Playbook}
use incident_investigator.Protocol.Requests.{sync_evidence_requests}
use incident_investigator.Protocol.Turn.{run, advance, extend_plan}
use incident_investigator.Engine.Trace.{
  update_reasoning_trace, apply_hypothesis_traces, journal_changes,
}
use incident_investigator.Reasoning.Applier.Frame.{frame, frame-apply, Frame}
use incident_investigator.Prelude.Sorting.{sort}
use incident_investigator.Model.Reasoning.{ReasoningResult, OrchestrationStrategy}
use incident_investigator.Reasoning.Merge.{merge}
use incident_investigator.Reasoning.Reasoners.{
  Investigation, ReasonerRegistry, list_reasoners, more_urgent,
}
use incident_investigator.Reasoning.Orchestrator.{execute, run_reasoners, graph_or_view}
use incident_investigator.Runtime.Recompute.{
  Setup, Moment, Calibration, reason_about, converse, apply_calibration, settle, prepare, recompute,
}

-- What the client has given, and when.
pub record Given : Type 0 where
  pub id : String
  pub question : String
  pub service : String
  pub time_window : TimeWindow
  pub goal : Goal
  pub evidence : List Evidence
  pub history : List HistoryEntry
  pub created_at : ℕ
  pub updated_at : ℕ

module _ {F : Type 0} where
  unfoldable pub given : Session F → Given
  given s = record {
    id = s.id;
    question = s.question;
    service = s.service;
    time_window = s.time_window;
    goal = s.goal;
    evidence = s.evidence;
    history = s.history;
    created_at = s.created_at;
    updated_at = s.updated_at;
  }

  given-frame : (s t : Session F) → frame s ≡ frame t → given s ≡ given t
  unfolding given frame
  given-frame s t e =
      ap
        (λ (f : Frame F). record {
          id = f.id;
          question = f.question;
          service = f.service;
          time_window = f.time_window;
          goal = f.goal;
          evidence = f.evidence;
          history = f.history;
          created_at = f.created_at;
          updated_at = f.updated_at;
        })
        e

  given-journal_changes :
      (prev : Dict (Hypothesis F)) (now : ℕ) (hs : List (Hypothesis F)) (s : Session F)
      → given (journal_changes prev now hs s) ≡ given s
  unfolding journal_changes add_journal given
  given-journal_changes prev now [] s = refl
  given-journal_changes prev now (h ∷ hs) s = given-journal_changes prev now hs _ ∙ ground arith

module _ (P : Platform) where
  given-sync :
      (s : Session P.Float) (plan : InvestigationPlan P.Float)
      → given (sync_evidence_requests P s plan).0 ≡ given s
  unfolding sync_evidence_requests given
  given-sync s plan = ground arith

  pub given-effects :
      (pb : Playbook P.Float) (rs : List (QuestionResolution P.Float)) (s : Session P.Float)
      (plan : InvestigationPlan P.Float)
      → given (apply_playbook_effects P pb rs s plan).0 ≡ given s
  unfolding apply_playbook_effects given
  given-effects pb rs s plan = ground arith

  given-run :
      (pb : Playbook P.Float) (s : Session P.Float) (sig : Signals) (now : ℕ) (previous : P.Float)
      → given (run P pb s sig now previous).0 ≡ given s
  unfolding given run advance extend_plan
  given-run pb s sig now previous = given-effects pb _ _ _ ∙ given-sync _ _ ∙ given-sync _ _

  given-execute :
      (elapsed : String → ℕ) (strategy : OrchestrationStrategy)
      (completed : List (ReasoningResult P.Float) → List (ReasoningResult P.Float)) (id : String)
      (started ended : ℕ) (reg : ReasonerRegistry P.Float) (inv : Investigation P.Float)
      → given (execute P elapsed strategy completed id started ended reg inv).1.session
        ≡ given inv.session
  unfolding execute
  given-execute elapsed strategy completed id started ended reg inv = given-frame _ _ (
      frame-apply P inv.session (graph_or_view inv.graph inv.session.graph) (
        merge P strategy
          (run_reasoners P elapsed strategy completed inv (sort more_urgent (list_reasoners reg)))))

  module _ (R : Setup P) where
    pub given-reason_about :
        (w : Moment P.Float) (sig : Signals) (s : Session P.Float)
        → given (reason_about P R w sig s) ≡ given s
    unfolding reason_about add_journal given
    given-reason_about w sig s =
        given-execute w.elapsed R.strategy w.finishing_order w.cycle_id w.started w.ended
          R.reasoners _

    given-converse :
        (pb : Option (Playbook P.Float)) (now : ℕ) (sig : Signals) (previous : P.Float)
        (s : Session P.Float)
        → given (converse P R pb now sig previous s) ≡ given s
    unfolding converse given
    given-converse none now sig previous s = refl
    given-converse (some pb) now sig previous s = given-run pb s sig now previous

    given-apply_calibration :
        (cal : Option (Calibration P.Float)) (at : ℕ) (s : Session P.Float)
        → given (apply_calibration P R cal at s) ≡ given s
    unfolding apply_calibration add_journal given
    given-apply_calibration cal at s = ground arith

    given-settle :
        (now : ℕ) (m : ReasoningMetrics P.Float) (s : Session P.Float)
        → given (settle P R now m s) ≡ given s
    unfolding settle update_reasoning_trace apply_hypothesis_traces given
    given-settle now m s = given-journal_changes _ now s.hypotheses _

    -- A recompute leaves all that the client has given as it is: the question, the service, the goal,
    -- the time window and the evidence. It also leaves the identifier, the history and the times of
    -- the session.
    pub given-recompute :
        (w : Moment P.Float) (s : Session P.Float) → given (recompute P R w s) ≡ given s
    unfolding recompute prepare snapshot_hypotheses given
    given-recompute w s =
        let sig = analyze P s.evidence in
        let reasoned = reason_about P R w sig (prepare P R s) in
        let talked = converse P R (R.playbook_for reasoned.goal) w.now sig s.confidence reasoned in
        let cal = R.calibrate false talked in
        given-settle w.now s.metrics (apply_calibration P R cal w.calibrated talked)
        ∙ given-apply_calibration cal w.calibrated talked
        ∙ given-converse (R.playbook_for reasoned.goal) w.now sig s.confidence reasoned
        ∙ given-reason_about w sig (prepare P R s)
