-- ===== src/Protocol/Resolving.antt =====
-- How a turn resolves the questions of a plan: resolveQuestions, updatePartialStatus,
-- updatePlanLists and ResolveQuestion of internal/engine/protocol/engine.go.
pub mod Explicit
use incident_investigator.Prelude.{
  ℕ, ltb, ◌==◌, ◌||◌, ◌&&◌, not, String, Bool, Option, none, some, List, [], ◌∷◌, ◌++◌, ◌<>◌,
  filter, map, length, if◌then◌else◌, Result, ok, err,
}
use incident_investigator.Model.Platform.{Platform, clamp, round1, sum}
use incident_investigator.Model.Evidence.{Hypothesis}
use incident_investigator.Model.Protocol.{
  Question, QuestionStatus, ResolutionStatus, QuestionResolution, InvestigationPlan, Stage,
  is_confirmed_resolution, is_rejected_resolution,
}
use incident_investigator.Model.Session.{Session, has_category}
use incident_investigator.Model.Signals.{Signals}
use incident_investigator.Protocol.Playbook.{
  Playbook, PlaybookEffect, find_playbook_question, effect_decrease,
}
use incident_investigator.Protocol.Questions.{is_open}
use incident_investigator.Protocol.Resolution.{resolve}
use incident_investigator.Protocol.Effects.{apply_playbook_effects}

-- The status that a resolution gives its question.
unfoldable pub status_after : ResolutionStatus → QuestionStatus
status_after ResolutionStatus.confirmed = QuestionStatus.answered
status_after ResolutionStatus.rejected = QuestionStatus.rejected
status_after ResolutionStatus.insufficient_evidence = QuestionStatus.partially_answered
status_after ResolutionStatus.unknown = QuestionStatus.partially_answered

module _ {F : Type 0} where
  -- updatePartialStatus. Where every required category is present the status stays.
  unfoldable pub update_partial_status : Session F → Question F → Question F
  update_partial_status s q =
      let present = length (filter (has_category s) q.required_evidence) in
      if not (ltb 0 present)
      then record q { status = QuestionStatus.waiting_for_evidence }
      else if ltb present (length q.required_evidence)
      then record q { status = QuestionStatus.partially_answered }
      else q

  -- A question with a resolution written to it.
  unfoldable pub with_resolution : Question F → QuestionResolution F → Question F
  with_resolution q res = record q {
    resolution = some res;
    confidence = res.confidence;
    status = status_after res.status;
    supporting_evidence = res.supporting_evidence;
    contradicting_evidence = res.contradicting_evidence;
  }

  -- updatePlanLists
  unfoldable pub update_plan_lists : Session F → InvestigationPlan F → InvestigationPlan F
  update_plan_lists s plan =
      let open_ids = map (λ (q : Question F). q.id) (filter is_open plan.questions) in
      let done_ids =
        map (λ (q : Question F). q.id) (filter (λ q. not (is_open q)) plan.questions) in
      record plan {
        open_questions = open_ids;
        completed_questions = done_ids;
        current_stage =
            if ltb 0 (length open_ids) && ltb 0 (length s.evidence)
            then Stage.need_more_evidence
            else plan.current_stage;
      }

module _ (P : Platform) where
  open P use {Float, of_ℕ, neg, plus, times, over, lt, le, quote}

  -- The questions of the plan, and the resolutions that the loop appends to the history of the plan
  -- and to the turn.
  pub record Outcome : Type 0 where
    pub questions : List (Question Float)
    pub resolutions : List (QuestionResolution Float)

  -- The body of the loop of resolveQuestions on one question.
  unfoldable pub resolve_one :
      Session Float
      → Signals
      → ℕ
      → Question Float
      → Question Float × Option (QuestionResolution Float)
  resolve_one s sig now q = if not (is_open q) then (q, none) else elim (resolve P q s sig) [
    | none ↦ (update_partial_status s q, none)
    | some res ↦
        let stamped = record res { resolved_at = now } in (with_resolution q stamped, some stamped)
  ]

  abbrev pub option_list : Option (QuestionResolution Float) → List (QuestionResolution Float)
  option_list none = []
  option_list (some r) = r ∷ []

  -- The loop.
  unfoldable pub resolve_loop : Session Float → Signals → ℕ → List (Question Float) → Outcome
  resolve_loop s sig now [] = record { questions = []; resolutions = [] }
  resolve_loop s sig now (q ∷ qs) =
      let step = resolve_one s sig now q in
      let rest = resolve_loop s sig now qs in
      record {
        questions = step.0 ∷ rest.questions;
        resolutions = option_list step.1 ++ rest.resolutions;
      }

  -- resolveQuestions: the plan, and the resolutions of the turn.
  unfoldable pub resolve_questions :
      Session Float
      → Signals
      → ℕ
      → InvestigationPlan Float
      → InvestigationPlan Float × List (QuestionResolution Float)
  resolve_questions s sig now plan =
      let out = resolve_loop s sig now plan.questions in
      (
        record plan {
          questions = out.questions;
          resolution_history = plan.resolution_history ++ out.resolutions;
          current_stage =
              if ltb 0 (length out.resolutions)
              then Stage.question_resolution
              else plan.current_stage;
        },
        out.resolutions,
      )

  -- The resolution that the tool resolve_question writes.
  unfoldable pub explicit_resolution :
      Question Float → String → Bool → String → ℕ → QuestionResolution Float
  explicit_resolution q id confirmed reason now = record {
    question_id = id;
    status = if confirmed then ResolutionStatus.confirmed else ResolutionStatus.rejected;
    confidence = of_ℕ 91;
    reason = reason;
    supporting_evidence = q.supporting_evidence;
    contradicting_evidence = [];
    resolved_at = now;
  }

  -- The loop of ResolveQuestion: the questions with the first one of that id resolved, and what is
  -- written to it.
  unfoldable pub resolve_named :
      String
      → Bool
      → String
      → ℕ
      → List (Question Float)
      → Option (List (Question Float) × QuestionResolution Float)
  resolve_named id confirmed reason now [] = none
  resolve_named id confirmed reason now (q ∷ qs) =
      let res = explicit_resolution q id confirmed reason now in
      let answered = record q {
        resolution = some res;
        status = if confirmed then QuestionStatus.answered else QuestionStatus.rejected;
        confidence = res.confidence;
      } in
      let rest = resolve_named id confirmed reason now qs in
      if q.id == id
      then some (answered ∷ qs, res)
      else elim rest [ none ↦ none | some (others, r) ↦ some (q ∷ others, r) ]

  -- ResolveQuestion on a session that has the plan.
  unfoldable pub resolve_question :
      Playbook Float
      → String
      → Bool
      → String
      → ℕ
      → Session Float
      → InvestigationPlan Float
      → Result String (Session Float × InvestigationPlan Float × QuestionResolution Float)
  resolve_question pb id confirmed reason now s plan =
      elim (resolve_named id confirmed reason now plan.questions) [
        | none ↦ err ("question " <> quote id <> " not found")
        | some (questions, res) ↦
            let recorded = record plan {
              questions = questions;
              resolution_history = plan.resolution_history ++ res ∷ [];
            } in
            let moved = apply_playbook_effects P pb (res ∷ []) s recorded in
            ok (moved.0, update_plan_lists moved.0 moved.1, res)
      ]
