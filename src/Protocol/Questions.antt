-- ===== src/Protocol/Questions.antt =====
-- The questions of a plan: ensureQuestions, generateDynamicQuestions and their helpers in
-- internal/engine/protocol/engine.go.
pub mod Growth
use incident_investigator.Prelude.{
  ℕ, ltb, ◌==◌, ◌||◌, ◌&&◌, not, String, Bool, true, false, Option, none, some, List, [], ◌∷◌, ◌++◌,
  ◌<>◌, all, any, contains, filter, map, foldl, is_some, if◌then◌else◌,
}
use incident_investigator.Prelude.Sorting.{sort}
use incident_investigator.Model.Platform.{Platform}
use incident_investigator.Model.Evidence.{Category}
use incident_investigator.Model.Protocol.{
  Question, QuestionStatus, ResolutionStatus, QuestionResolution, InvestigationPlan, ProtocolTurn,
  Stage, is_answered, is_rejected, is_confirmed_resolution,
}
use incident_investigator.Model.Signals.{Signals}
use incident_investigator.Protocol.Playbook.{
  Playbook, PlaybookQuestion, find_playbook_question, signal_triggered,
}

module _ {F : Type 0} where
  -- A question that is neither answered nor rejected.
  abbrev pub is_open : Question F → Bool
  is_open q = not (is_answered q.status || is_rejected q.status)

  abbrev pub question_ids : List (Question F) → List String
  question_ids qs = map (λ (q : Question F). q.id) qs

  abbrev pub by_priority : Question F → Question F → Bool
  by_priority a b = ltb b.priority a.priority

  -- ListOpenQuestions
  unfoldable pub list_open_questions : Option (InvestigationPlan F) → List (Question F)
  list_open_questions none = []
  list_open_questions (some plan) = sort by_priority (filter is_open plan.questions)

  -- dependenciesMet
  unfoldable pub dependencies_met : List (Question F) → List String → Bool
  dependencies_met qs deps =
      all (λ d. contains (question_ids (filter (λ (q : Question F). is_answered q.status) qs)) d)
        deps

  -- The question that a confirmed parent generates: `parentGenerates`.
  unfoldable pub parent_generates : Playbook F → String → List String
  parent_generates pb parent_id = elim (find_playbook_question pb parent_id) [
    | none ↦ []
    | some pq ↦ pq.generates
  ]

module _ (P : Platform) where
  open P use {Float, of_ℕ}

  -- playbookQuestionToModel
  unfoldable pub playbook_question_to_model : PlaybookQuestion Float → Question Float
  playbook_question_to_model pq = record {
    id = pq.id;
    title = if pq.title == "" then pq.id else pq.title;
    description = pq.description;
    priority = pq.priority;
    status = QuestionStatus.waiting_for_evidence;
    confidence = of_ℕ 0;
    required_evidence = pq.requires;
    supporting_evidence = [];
    contradicting_evidence = [];
    resolution = none;
    depends_on = pq.depends_on;
  }

  -- The loop of ensureQuestions. The local set `existing` holds the ids of the questions.
  unfoldable pub ensure_loop :
      List (PlaybookQuestion Float) → List (Question Float) → List (Question Float)
  ensure_loop [] qs = qs
  ensure_loop (pq ∷ pqs) qs = ensure_loop pqs (
      if not (pq.trigger_signal == "")
        || not (dependencies_met qs pq.depends_on)
        || contains (question_ids qs) pq.id
      then qs
      else qs ++ playbook_question_to_model pq ∷ [])

  -- ensureQuestions
  unfoldable pub ensure_questions :
      Playbook Float → InvestigationPlan Float → InvestigationPlan Float
  unfolding ensure_loop
  ensure_questions pb plan = record plan {
    questions = ensure_loop pb.questions plan.questions;
    current_stage = Stage.question_generation;
  }

  -- The questions of the plan, and the new ones of the turn.
  pub record Generated : Type 0 where
    pub questions : List (Question Float)
    pub new_questions : List (Question Float)

  unfoldable pub add_question : Generated → PlaybookQuestion Float → Generated
  add_question g pq =
      let q = playbook_question_to_model pq in
      record { questions = g.questions ++ q ∷ []; new_questions = g.new_questions ++ q ∷ [] }

  -- The first loop of generateDynamicQuestions.
  unfoldable pub trigger_loop : Signals → List (PlaybookQuestion Float) → Generated → Generated
  trigger_loop sig [] g = g
  trigger_loop sig (pq ∷ pqs) g = trigger_loop sig pqs (
      if (pq.trigger_signal == "")
        || contains (question_ids g.questions) pq.id
        || not (signal_triggered sig pq.trigger_signal)
        || not (dependencies_met g.questions pq.depends_on)
      then g
      else add_question g pq)

  -- The two inner loops of the second one: over the ids that the parent generates, for one question
  -- of the playbook, and over the questions of the playbook.
  unfoldable pub unlock_one : PlaybookQuestion Float → List String → Generated → Generated
  unlock_one pq [] g = g
  unlock_one pq (gen ∷ gens) g = unlock_one pq gens (
      if not (pq.id == gen) || contains (question_ids g.questions) pq.id
      then g
      else add_question g pq)

  unfoldable pub unlock_all : List String → List (PlaybookQuestion Float) → Generated → Generated
  unlock_all gens [] g = g
  unlock_all gens (pq ∷ pqs) g = unlock_all gens pqs (unlock_one pq gens g)

  abbrev pub is_confirmed : Option (QuestionResolution Float) → Bool
  is_confirmed none = false
  is_confirmed (some r) = is_confirmed_resolution r.status

  -- The second loop. Go ranges over the questions that stood in the plan when it began.
  unfoldable pub unlock_loop : Playbook Float → List (Question Float) → Generated → Generated
  unlock_loop pb [] g = g
  unlock_loop pb (q ∷ qs) g = unlock_loop pb qs (
      if is_confirmed q.resolution then unlock_all (parent_generates pb q.id) pb.questions g else g)

  -- generateDynamicQuestions
  unfoldable pub generate_dynamic :
      Playbook Float → Signals → List (Question Float) → List (Question Float) → Generated
  unfolding trigger_loop unlock_loop
  generate_dynamic pb sig qs new =
      let g = trigger_loop sig pb.questions (record { questions = qs; new_questions = new }) in
      unlock_loop pb g.questions g
