-- ===== src/Runtime/Ending.antt =====
-- What a recompute does to the status and the state of a session before it derives them anew.
use incident_investigator.Prelude.{
  ◌≡◌, refl, sym, subst, ◌∙◌, arith, ℕ, String, Bool, false, Option, none, some, List, [], ◌∷◌,
  Option-cases, inl, inr,
}
use incident_investigator.Prelude.Dict.{Dict}
use incident_investigator.Model.Platform.{Platform}
use incident_investigator.Model.Evidence.{Hypothesis}
use incident_investigator.Model.Investigation.{InvestigationState}
use incident_investigator.Model.Protocol.{InvestigationPlan, QuestionResolution}
use incident_investigator.Model.Reasoning.{
  ReasoningAction, ActionType, ReasoningResult, OrchestrationStrategy,
}
use incident_investigator.Model.Session.{Session, is_completed, add_journal}
use incident_investigator.Model.Signals.{Signals}
use incident_investigator.Graph.Store.{MemoryStore}
use incident_investigator.Reasoning.Validator.{validate}
use incident_investigator.Reasoning.Applier.{apply_as, apply_one}
use incident_investigator.Reasoning.Applier.Loop.{
  Batch, apply_next, apply_loop, apply, record_outcome,
}
use incident_investigator.Protocol.Effects.{apply_playbook_effects}
use incident_investigator.Protocol.Playbook.{Playbook}
use incident_investigator.Protocol.Requests.{sync_evidence_requests}
use incident_investigator.Protocol.Turn.{run, advance, extend_plan}
use incident_investigator.Engine.Trace.{
  update_reasoning_trace, journal_changes, index_hypotheses, append_traces,
}
use incident_investigator.Prelude.Sorting.{sort}
use incident_investigator.Signals.Analysis.{analyze}
use incident_investigator.Reasoning.Merge.{merge}
use incident_investigator.Reasoning.Reasoners.{
  Investigation, ReasonerRegistry, list_reasoners, more_urgent,
}
use incident_investigator.Reasoning.Orchestrator.{execute, run_reasoners, graph_or_view, opened}
use incident_investigator.Runtime.Recompute.{
  Setup, Moment, Calibration, reason_about, converse, apply_calibration, prepare,
}

module _ {F : Type 0} where
  -- What decides on the end of a session: its status and its state.
  unfoldable pub ending : Session F → Bool × InvestigationState
  ending s = (is_completed s.status, s.state)

  ending-journal_changes :
      (prev : Dict (Hypothesis F)) (now : ℕ) (hs : List (Hypothesis F)) (s : Session F)
      → ending (journal_changes prev now hs s) ≡ ending s
  unfolding journal_changes add_journal ending
  ending-journal_changes prev now [] s = refl
  ending-journal_changes prev now (h ∷ hs) s = ending-journal_changes prev now hs _ ∙ ground arith

-- The session of a recompute when its traces begin.
unfoldable pub talked :
    (P : Platform) → Setup P → Moment P.Float → Session P.Float → Session P.Float
talked P R w s =
    let sig = analyze P s.evidence in
    let reasoned = reason_about P R w sig (prepare P R s) in
    let after = converse P R (R.playbook_for reasoned.goal) w.now sig s.confidence reasoned in
    apply_calibration P R (R.calibrate false after) w.calibrated after

module _ (P : Platform) where
  pub ending-update :
      (now : ℕ) (s : Session P.Float) → ending (update_reasoning_trace P now s) ≡ ending s
  unfolding update_reasoning_trace ending
  ending-update now s =
      let prev = index_hypotheses [] s.prev_hypotheses in
      ending-journal_changes prev now s.hypotheses
        (record s { reasoning_trace = append_traces P prev now s.hypotheses s.reasoning_trace })

  ending-sync :
      (s : Session P.Float) (plan : InvestigationPlan P.Float)
      → ending (sync_evidence_requests P s plan).0 ≡ ending s
  unfolding sync_evidence_requests ending
  ending-sync s plan = ground arith

  ending-effects :
      (pb : Playbook P.Float) (rs : List (QuestionResolution P.Float)) (s : Session P.Float)
      (plan : InvestigationPlan P.Float)
      → ending (apply_playbook_effects P pb rs s plan).0 ≡ ending s
  unfolding apply_playbook_effects ending
  ending-effects pb rs s plan = ground arith

  ending-run :
      (pb : Playbook P.Float) (s : Session P.Float) (sig : Signals) (now : ℕ) (previous : P.Float)
      → ending (run P pb s sig now previous).0 ≡ ending s
  unfolding ending run advance extend_plan
  ending-run pb s sig now previous = ending-effects pb _ _ _ ∙ ending-sync _ _ ∙ ending-sync _ _

  module _ (R : Setup P) where
    pub ending-converse :
        (pb : Option (Playbook P.Float)) (now : ℕ) (sig : Signals) (previous : P.Float)
        (s : Session P.Float)
        → ending (converse P R pb now sig previous s) ≡ ending s
    unfolding converse ending
    ending-converse none now sig previous s = refl
    ending-converse (some pb) now sig previous s = ending-run pb s sig now previous

    pub ending-apply_calibration :
        (cal : Option (Calibration P.Float)) (at : ℕ) (s : Session P.Float)
        → ending (apply_calibration P R cal at s) ≡ ending s
    unfolding apply_calibration add_journal ending
    ending-apply_calibration cal at s = ground arith

  -- A property of the status and the state that no single action of a reasoner breaks.
  module _ (Q : Bool × InvestigationState → Type 0)
      (kept : (t : ActionType) (s : Session P.Float) (g : Option (MemoryStore P.Float))
          (a : ReasoningAction P.Float)
        → Q (ending s)
        → Q (ending (apply_as P t s g a).session)) where
    kept-apply_next :
        (b : Batch P.Float) (a : ReasoningAction P.Float)
        → Q (ending b.session)
        → Q (ending (apply_next P b a).session)
    unfolding apply_next apply_one record_outcome ending
    kept-apply_next b a h = elim (Option-cases (validate P b.session b.graph a)) [
      | inl e ↦
          let accepted : ending (apply_as P a.type b.session b.graph a).session
              ≡ ending (apply_next P b a).session =
            ground arith in
          subst Q accepted (kept a.type b.session b.graph a h)
      | inr (m, e) ↦
          let refused : ending b.session ≡ ending (apply_next P b a).session = ground arith in
          subst Q refused h
    ]

    kept-apply_loop :
        (actions : List (ReasoningAction P.Float)) (b : Batch P.Float)
        → Q (ending b.session)
        → Q (ending (apply_loop P b actions).session)
    unfolding apply_loop
    kept-apply_loop [] b h = h
    kept-apply_loop (a ∷ actions) b h =
        kept-apply_loop actions (apply_next P b a) (kept-apply_next b a h)

    kept-execute :
        (elapsed : String → ℕ) (strategy : OrchestrationStrategy)
        (completed : List (ReasoningResult P.Float) → List (ReasoningResult P.Float)) (id : String)
        (started ended : ℕ) (reg : ReasonerRegistry P.Float) (inv : Investigation P.Float)
        → Q (ending inv.session)
        → Q (ending (execute P elapsed strategy completed id started ended reg inv).1.session)
    unfolding execute apply
    kept-execute elapsed strategy completed id started ended reg inv h =
        kept-apply_loop
          (merge P strategy (
            run_reasoners P elapsed strategy completed inv (sort more_urgent (list_reasoners reg))))
          (record {
            applied = [];
            rejected = [];
            session = inv.session;
            graph = graph_or_view inv.graph inv.session.graph;
          })
          h

    pub kept-reason_about :
        (R : Setup P) (w : Moment P.Float) (sig : Signals) (s : Session P.Float)
        → Q (ending s)
        → Q (ending (reason_about P R w sig s))
    unfolding reason_about add_journal ending
    kept-reason_about R w sig s h =
        kept-execute w.elapsed R.strategy w.finishing_order w.cycle_id w.started w.ended R.reasoners
          (record { session = s; signals = sig; graph = opened s.graph }) h

    -- A property that a recompute has at its beginning it has when Transition begins.
    pub kept-talk :
        (R : Setup P) (w : Moment P.Float) (s : Session P.Float)
        → Q (ending (prepare P R s))
        → Q (ending (talked P R w s))
    unfolding talked
    kept-talk R w s h =
        let sig = analyze P s.evidence in
        let reasoned = reason_about P R w sig (prepare P R s) in
        let after = converse P R (R.playbook_for reasoned.goal) w.now sig s.confidence reasoned in
        subst Q
          (sym (
            ending-apply_calibration R (R.calibrate false after) w.calibrated after
            ∙ ending-converse R (R.playbook_for reasoned.goal) w.now sig s.confidence reasoned))
          (kept-reason_about R w sig (prepare P R s) h)
