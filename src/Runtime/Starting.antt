-- ===== src/Runtime/Starting.antt =====
-- internal/runtime/runtime.go: Start.
use incident_investigator.Prelude.{
  ℕ, ltb, String, Bool, true, false, not, ◌&&◌, none, some, [], ◌==◌, ok, err, if◌then◌else◌,
}
use incident_investigator.Prelude.Dict.{Dict}
use incident_investigator.Model.Platform.{Platform}
use incident_investigator.Model.Investigation.{InvestigationState}
use incident_investigator.Model.Protocol.{Goal}
use incident_investigator.Model.Session.{Session, Status, TimeWindow, add_history, add_journal}
use incident_investigator.Runtime.Sessions.{RuntimeError, Outcome, save_session}
use incident_investigator.Runtime.Recompute.{Setup, Moment, recompute}

pub record StartInput : Type 0 where
  pub question : String
  pub service : String
  pub time_window : TimeWindow
  pub goal : Goal

-- Goal.Valid
unfoldable pub is_valid_goal : Goal → Bool
is_valid_goal Goal.unset_goal = false
is_valid_goal (Goal.unknown_goal g) = false
is_valid_goal _ = true

-- The default goal in place of none.
abbrev pub goal_or_default : Goal → Goal
goal_or_default Goal.unset_goal = Goal.root_cause
goal_or_default g = g

-- validateTimeWindow
unfoldable pub is_bad_window : TimeWindow → Bool
is_bad_window w = ltb 0 w.start && ltb 0 w.end && ltb w.end w.start

module _ (P : Platform) where
  open P use {Float, of_ℕ}

  -- The session that Start stores, before it is recomputed.
  unfoldable pub new_session : String → ℕ → StartInput → Goal → Session Float
  unfolding add_history add_journal
  new_session id now input goal = add_journal "investigation_started" input.question (of_ℕ 0) now (
      add_history "started" input.question now (record {
        id = id;
        question = input.question;
        service = input.service;
        time_window = input.time_window;
        goal = goal;
        evidence = [];
        graph = some (record { nodes = []; edges = [] });
        hypotheses = [];
        timeline = [];
        contradictions = [];
        blast_radius = record { services = []; regions = []; customers = []; apis = [] };
        required_evidence = [];
        missing_evidence = [];
        confidence = of_ℕ 0;
        progress = of_ℕ 0;
        status = Status.collecting;
        state = InvestigationState.started;
        sufficiency = record {
          can_answer = false;
          overall_confidence = of_ℕ 0;
          coverage = of_ℕ 0;
          blocking_questions = [];
          missing_evidence = [];
          reason = "";
        };
        investigation_progress = record {
          percent_complete = of_ℕ 0;
          confidence = of_ℕ 0;
          coverage = of_ℕ 0;
          remaining_questions = 0;
        };
        strategy = [];
        coverage = record { categories = []; overall = of_ℕ 0 };
        evidence_importance = [];
        reasoning_trace = [];
        journal = [];
        confidence_breakdown = record {
          leading_hypothesis = of_ℕ 0;
          separation = of_ℕ 0;
          corroboration = of_ℕ 0;
          temporal = of_ℕ 0;
          coverage_factor = of_ℕ 0;
          contradiction_penalty = of_ℕ 0;
          overall = of_ℕ 0;
        };
        metrics = record {
          hypothesis_count = 0;
          rejected_hypotheses = 0;
          contradiction_count = 0;
          coverage = of_ℕ 0;
          evidence_count = 0;
          reasoning_iterations = 0;
          planner_iterations = 0;
          average_confidence_gain = of_ℕ 0;
        };
        reasoning_cycles = [];
        plan = none;
        question_graph = record { nodes = []; edges = [] };
        protocol_metrics = record {
          total_questions = 0;
          resolved_questions = 0;
          pending_questions = 0;
          rejected_questions = 0;
          average_resolution_confidence = of_ℕ 0;
          evidence_requests_created = 0;
          evidence_requests_completed = 0;
          average_confidence_gain = of_ℕ 0;
          planner_iterations = 0;
        };
        last_turn = record {
          resolved_questions = [];
          new_questions = [];
          confidence_delta = of_ℕ 0;
        };
        history = [];
        created_at = now;
        updated_at = now;
        prev_hypotheses = [];
      }))

module _ (P : Platform) (R : Setup P) where
  open P use {Float, trim_space}

  -- Start
  unfoldable pub start :
      String
      → Moment Float
      → StartInput
      → Dict (Session Float)
      → Dict (Session Float) × Outcome (Session Float)
  unfolding is_bad_window is_valid_goal new_session recompute save_session
  start id w input sessions =
      let goal = goal_or_default input.goal in
      if trim_space input.question == ""
      then (sessions, err RuntimeError.question_required)
      else if is_bad_window input.time_window
      then (sessions, err RuntimeError.invalid_time_window)
      else if not (is_valid_goal goal)
      then (sessions, err (RuntimeError.invalid_goal goal))
      else let s = recompute P R w (new_session P id w.now input goal) in
        (save_session s sessions, ok s)
