-- ===== src/Runtime/Recompute.antt =====
-- internal/runtime/runtime.go: how a session is recomputed from its evidence. What the bus delivers
-- is left out: a handler must not change a session.
pub mod Steps
use incident_investigator.Prelude.{
  ℕ, zero, suc, String, Bool, true, false, ◌&&◌, ◌||◌, Option, none, some, List, [], ◌∷◌, ◌++◌,
  ◌<>◌, length, if◌then◌else◌,
}
use incident_investigator.Model.Platform.{Platform, round1, percent}
use incident_investigator.Model.Evidence.{Category, Hypothesis, Contradiction, application_logs}
use incident_investigator.Model.Investigation.{
  InvestigationState, NextStep, CoverageReport, SufficiencyReport, ReasoningMetrics,
}
use incident_investigator.Model.Protocol.{
  Goal, InvestigationPlan, ProtocolEvidenceRequest, is_fulfilled,
}
use incident_investigator.Model.Reasoning.{ReasoningResult, ReasoningCycle, OrchestrationStrategy}
use incident_investigator.Model.Session.{
  Session, Status, is_completed, add_journal, snapshot_hypotheses,
}
use incident_investigator.Model.Signals.{Signals}
use incident_investigator.Signals.Analysis.{analyze}
use incident_investigator.Reasoning.Reasoners.{ReasonerRegistry, Investigation}
use incident_investigator.Reasoning.Orchestrator.{execute, opened}
use incident_investigator.Protocol.Playbook.{Playbook}
use incident_investigator.Protocol.Turn.{run}
use incident_investigator.StateMachine.{begin_reasoning, transition}
use incident_investigator.Engine.Progress.{compute_investigation_progress, compute_metrics}
use incident_investigator.Engine.Trace.{update_reasoning_trace, apply_hypothesis_traces}

-- The fields of CalibrationResponse that the runtime reads.
pub record Calibration (F : Type 0) : Type 0 where
  pub calibrated_confidence : F
  pub delta : F
  pub reason : String

-- The parts that New puts together. Each engine is an interface in Go; `calibrate` is
-- CalibrateConfidence with the flag RecordCompleted, where `none` stands for an error or no response.
pub record Setup (P : Platform) : Type 0 where
  pub reasoners : ReasonerRegistry P.Float
  pub strategy : OrchestrationStrategy
  pub playbook_for : Goal → Option (Playbook P.Float)
  pub confidence :
      Session P.Float → Signals → List (Hypothesis P.Float) → List Contradiction → P.Float → P.Float
  pub sufficiency : Session P.Float → Signals → CoverageReport P.Float → SufficiencyReport P.Float
  pub calibrate : Bool → Session P.Float → Option (Calibration P.Float)
  pub high_confidence : P.Float
  pub confidence_threshold : P.Float
  pub progress_threshold : P.Float

-- What one recompute takes from the world: the times that the clock gives, the new identifier, and
-- how the reasoners run.
pub record Moment (F : Type 0) : Type 0 where
  pub now : ℕ
  pub started : ℕ
  pub ended : ℕ
  pub calibrated : ℕ
  pub cycle_id : String
  pub elapsed : String → ℕ
  pub finishing_order : List (ReasoningResult F) → List (ReasoningResult F)

-- LegacyStatus
unfoldable pub legacy_status : InvestigationState → Status
legacy_status InvestigationState.high_confidence = Status.ready
legacy_status InvestigationState.completed = Status.completed
legacy_status _ = Status.collecting

abbrev pub is_completed_state : InvestigationState → Bool
is_completed_state InvestigationState.completed = true
is_completed_state _ = false

abbrev pub first_category : List Category → Category
first_category [] = application_logs
first_category (c ∷ cs) = c

module _ {F : Type 0} where
  -- The loop of protocolRequestsToStrategy, which stops after two steps. `left` is how many more it
  -- takes, and `place` the place in the list, from 1.
  unfoldable pub steps_of : ℕ → ℕ → List (ProtocolEvidenceRequest F) → List (NextStep F)
  steps_of zero place rs = []
  steps_of (suc left) place [] = []
  steps_of (suc left) place (r ∷ rs) =
      let passed = steps_of (suc left) (suc place) rs in
      let later = steps_of left (suc place) rs in
      if is_fulfilled r.status
      then passed
      else record {
        priority = place;
        category = first_category r.categories;
        reason = r.reason;
        expected_confidence_gain = r.expected_confidence_gain;
        blocks_hypothesis = [];
      }
        ∷ later

  -- protocolRequestsToStrategy
  unfoldable pub protocol_requests_to_strategy : Option (InvestigationPlan F) → List (NextStep F)
  unfolding steps_of
  protocol_requests_to_strategy none = []
  protocol_requests_to_strategy (some plan) = steps_of 2 1 plan.evidence_requests

module _ (P : Platform) (R : Setup P) where
  open P use {Float, of_ℕ, minus, abs, le, decimal}

  -- The journal's detail of a cycle.
  unfoldable pub cycle_detail : ReasoningCycle Float → String
  cycle_detail c =
      "cycle "
      <> c.cycle_id
      <> ": "
      <> decimal (length c.reasoners)
      <> " reasoners, "
      <> decimal (length c.applied_actions)
      <> " applied, "
      <> decimal (length c.rejected_actions)
      <> " rejected"

  -- Orchestrator.Run, and what recompute does with the cycle. Execute returns no error.
  unfoldable pub reason_about : Moment Float → Signals → Session Float → Session Float
  unfolding execute opened cycle_detail add_journal
  reason_about w sig s =
      let inv : Investigation Float = record {
        session = s;
        signals = sig;
        graph = opened s.graph;
      } in
      let done =
        execute P w.elapsed R.strategy w.finishing_order w.cycle_id w.started w.ended R.reasoners
          inv in
      let after = done.1.session in
      add_journal "reasoning_cycle" (cycle_detail done.0) after.confidence w.now
        (record after { reasoning_cycles = after.reasoning_cycles ++ done.0 ∷ [] })

  -- The protocol's part of recompute; without a playbook it is passed over.
  unfoldable pub converse :
      Option (Playbook Float) → ℕ → Signals → Float → Session Float → Session Float
  unfolding run protocol_requests_to_strategy compute_investigation_progress
  converse none now sig previous s = s
  converse (some pb) now sig previous s =
      let turned = run P pb s sig now previous in
      let s1 = turned.0 in
      let confidence = R.confidence s1 sig s1.hypotheses s1.contradictions s1.progress in
      let s2 : Session Float = record s1 {
        confidence = confidence;
        last_turn = record turned.1 { confidence_delta = round1 P (minus confidence previous) };
        strategy = protocol_requests_to_strategy s1.plan;
      } in
      let report = R.sufficiency s2 sig s2.coverage in
      let s3 : Session Float = record s2 { sufficiency = report } in
      record s3 { investigation_progress = compute_investigation_progress P s3 s3.coverage report }

  -- applyIntelligenceCalibration
  unfoldable pub apply_calibration : Option (Calibration Float) → ℕ → Session Float → Session Float
  unfolding add_journal percent
  apply_calibration none at s = s
  apply_calibration (some cal) at s =
      if le (percent P 50) (abs cal.delta)
      then add_journal "intelligence_calibration" cal.reason cal.calibrated_confidence at
          (record s { confidence = cal.calibrated_confidence })
      else s

  -- deriveStatus
  unfoldable pub derive_status : Session Float → Status
  unfolding legacy_status
  derive_status s =
      if is_completed s.status || is_completed_state s.state
      then Status.completed
      else if s.sufficiency.can_answer
          || (le R.confidence_threshold s.confidence
              && le R.progress_threshold s.investigation_progress.percent_complete)
      then Status.ready
      else legacy_status s.state

  -- The end of recompute: the traces, the metrics, the state and the status.
  unfoldable pub settle : ℕ → ReasoningMetrics Float → Session Float → Session Float
  unfolding update_reasoning_trace apply_hypothesis_traces compute_metrics transition derive_status
  settle now previous s =
      let traced = apply_hypothesis_traces (update_reasoning_trace P now s) in
      let counted : Session Float = record traced {
        metrics = compute_metrics P traced traced.coverage previous;
      } in
      let moved : Session Float = record counted {
        state = transition P R.high_confidence counted.state counted counted.sufficiency;
      } in
      record moved { status = derive_status moved }

  -- The beginning of recompute.
  unfoldable pub prepare : Session Float → Session Float
  unfolding snapshot_hypotheses begin_reasoning
  prepare s = record (snapshot_hypotheses s) { state = begin_reasoning s.state }

  -- recompute
  unfoldable pub recompute : Moment Float → Session Float → Session Float
  unfolding prepare analyze reason_about converse apply_calibration settle
  recompute w s =
      let sig = analyze P s.evidence in
      let reasoned = reason_about w sig (prepare s) in
      let talked = converse (R.playbook_for reasoned.goal) w.now sig s.confidence reasoned in
      settle w.now s.metrics (apply_calibration (R.calibrate false talked) w.calibrated talked)
