-- ===== src/Reasoning/Changes.antt =====
-- internal/reasoning/applier.go: the helpers that change a session, and the graph that the
-- orchestrator holds beside it. Slices are values.
use incident_investigator.Prelude.{
  String, Bool, true, false, not, ◌&&◌, Option, none, some, List, [], ◌∷◌, ◌++◌, ◌==◌, any, filter,
  map, contains, is_some, if◌then◌else◌,
}
use incident_investigator.Model.Platform.{Platform, sum}
use incident_investigator.Model.Evidence.{Hypothesis, HypothesisStatus, Contradiction, is_refuted}
use incident_investigator.Model.Graph.{GraphEdge}
use incident_investigator.Model.Protocol.{
  Goal, Question, QuestionStatus, Stage, InvestigationPlan, ProtocolEvidenceRequest,
}
use incident_investigator.Model.Session.{Session}
use incident_investigator.Graph.Store.{MemoryStore, add_edge, all_edges, view}

-- The session and the graph, and whether the action had an effect.
pub record Applied (F : Type 0) : Type 0 where
  pub done : Bool
  pub session : Session F
  pub graph : Option (MemoryStore F)

module _ {F : Type 0} where
  abbrev pub hypothesis_ids : Session F → List String
  hypothesis_ids s = map (λ (h : Hypothesis F). h.id) s.hypotheses

  abbrev pub contradiction_ids : Session F → List String
  contradiction_ids s = map (λ (c : Contradiction). c.id) s.contradictions

  abbrev pub plan_question_ids : InvestigationPlan F → List String
  plan_question_ids plan = map (λ (q : Question F). q.id) plan.questions

  abbrev pub request_ids : InvestigationPlan F → List String
  request_ids plan = map (λ (r : ProtocolEvidenceRequest F). r.id) plan.evidence_requests

  -- What an operation of the applier returns that leaves the graph alone.
  abbrev pub changed : Bool → Session F → Option (MemoryStore F) → Applied F
  changed done s g = record { done = done; session = s; graph = g }

  -- edgeExists
  unfoldable pub edge_exists : MemoryStore F → GraphEdge F → Bool
  edge_exists g e =
      any (λ (x : GraphEdge F). (x.from == e.from) && (x.to == e.to) && (x.type == e.type))
        (all_edges g)

  -- The loop of setHypothesisStatus: the first hypothesis with the id changes.
  unfoldable pub with_status : String → HypothesisStatus → List (Hypothesis F) → List (Hypothesis F)
  with_status id status [] = []
  with_status id status (h ∷ hs) =
      let rest = with_status id status hs in
      if h.id == id then record h { status = status } ∷ hs else h ∷ rest

  -- setHypothesisStatus
  unfoldable pub set_hypothesis_status :
      String → HypothesisStatus → Session F → Option (MemoryStore F) → Applied F
  unfolding with_status
  set_hypothesis_status id status s g =
      if contains (hypothesis_ids s) id
      then changed true (record s { hypotheses = with_status id status s.hypotheses }) g
      else changed false s g

  -- appendHypothesis
  unfoldable pub append_hypothesis :
      Option (Hypothesis F) → Session F → Option (MemoryStore F) → Applied F
  append_hypothesis none s g = changed false s g
  append_hypothesis (some h) s g =
      if contains (hypothesis_ids s) h.id
      then changed false s g
      else changed true (record s { hypotheses = s.hypotheses ++ h ∷ [] }) g

  -- appendContradiction: one that is known counts as done.
  unfoldable pub append_contradiction :
      Option Contradiction → Session F → Option (MemoryStore F) → Applied F
  append_contradiction none s g = changed false s g
  append_contradiction (some c) s g =
      if contains (contradiction_ids s) c.id
      then changed true s g
      else changed true (record s { contradictions = s.contradictions ++ c ∷ [] }) g

  -- appendQuestion and appendEvidenceRequest, on the plan
  unfoldable pub add_to_questions : Question F → InvestigationPlan F → Option (InvestigationPlan F)
  add_to_questions q plan =
      if contains (plan_question_ids plan) q.id
      then none
      else some (record plan { questions = plan.questions ++ q ∷ [] })

  unfoldable pub add_to_requests :
      ProtocolEvidenceRequest F → InvestigationPlan F → Option (InvestigationPlan F)
  add_to_requests r plan =
      if contains (request_ids plan) r.id
      then none
      else some (record plan { evidence_requests = plan.evidence_requests ++ r ∷ [] })

  -- The loop of resolveQuestion: the first question with the id changes its status, and nothing else.
  unfoldable pub with_question_status :
      String → QuestionStatus → List (Question F) → List (Question F)
  with_question_status id status [] = []
  with_question_status id status (q ∷ qs) =
      let rest = with_question_status id status qs in
      if q.id == id then record q { status = status } ∷ qs else q ∷ rest

  unfoldable pub close_question :
      String → QuestionStatus → InvestigationPlan F → Option (InvestigationPlan F)
  unfolding with_question_status
  close_question id status plan =
      if contains (plan_question_ids plan) id
      then some (record plan { questions = with_question_status id status plan.questions })
      else none

  -- A plan that an operation may refuse to change.
  unfoldable pub store_plan :
      Option (InvestigationPlan F) → Session F → Option (MemoryStore F) → Applied F
  store_plan none s g = changed false s g
  store_plan (some plan) s g = changed true (record s { plan = some plan }) g

  unfoldable pub change_plan :
      (InvestigationPlan F → Option (InvestigationPlan F))
      → Session F
      → Option (MemoryStore F)
      → Applied F
  unfolding store_plan
  change_plan f s g = elim s.plan [ none ↦ changed false s g | some plan ↦ store_plan (f plan) s g ]

  -- appendQuestion
  unfoldable pub append_question :
      Option (Question F) → Session F → Option (MemoryStore F) → Applied F
  unfolding change_plan add_to_questions
  append_question none s g = changed false s g
  append_question (some q) s g = change_plan (add_to_questions q) s g

  -- appendEvidenceRequest
  unfoldable pub append_evidence_request :
      Option (ProtocolEvidenceRequest F) → Session F → Option (MemoryStore F) → Applied F
  unfolding change_plan add_to_requests
  append_evidence_request none s g = changed false s g
  append_evidence_request (some r) s g = change_plan (add_to_requests r) s g

  -- resolveQuestion
  unfoldable pub set_question_status :
      String → QuestionStatus → Session F → Option (MemoryStore F) → Applied F
  unfolding change_plan close_question
  set_question_status id status s g = change_plan (close_question id status) s g

  -- The case of LinkGraphNodes. The session shows the graph only where it held one before.
  unfoldable pub link_nodes : Option (GraphEdge F) → Session F → Option (MemoryStore F) → Applied F
  unfolding edge_exists
  link_nodes none s g = changed false s g
  link_nodes (some e) s none = changed false s none
  link_nodes (some e) s (some g) =
      if edge_exists g e
      then changed true s (some g)
      else let grown = add_edge e g in
        changed true (record s { graph = if is_some s.graph then some (view grown) else none })
          (some grown)

module _ (P : Platform) where
  open P use {Float, of_ℕ, neg, plus, times, over, le, max, min, round, trim_space}

  -- clampConfidence and clampPercent
  unfoldable pub clamp_confidence : Float → Float
  clamp_confidence v = max (of_ℕ 0) (min (of_ℕ 100) v)

  -- round1 of the same file, which rounds by math.Round
  unfoldable pub round_tenth : Float → Float
  round_tenth v = over (round (times v (of_ℕ 10))) (of_ℕ 10)

  -- normalizeHypothesisConfidences of the same file, which passes over refuted hypotheses
  unfoldable pub rescale : Float → Hypothesis Float → Hypothesis Float
  unfolding round_tenth
  rescale total h =
      if is_refuted h.status
      then h
      else record h { confidence = round_tenth (times (over h.confidence total) (of_ℕ 100)) }

  unfoldable pub live_total : List (Hypothesis Float) → Float
  live_total hs = sum P (
      map (λ (h : Hypothesis Float). h.confidence)
        (filter (λ (h : Hypothesis Float). not (is_refuted h.status)) hs))

  unfoldable pub rescale_confidences : List (Hypothesis Float) → List (Hypothesis Float)
  unfolding rescale live_total
  rescale_confidences hs =
      let total = live_total hs in if le total (of_ℕ 0) then hs else map (rescale total) hs

  -- The loop of adjustHypothesisConfidence: the first hypothesis with the id moves.
  unfoldable pub shift_confidence :
      String → Float → List (Hypothesis Float) → List (Hypothesis Float)
  unfolding clamp_confidence
  shift_confidence id delta [] = []
  shift_confidence id delta (h ∷ hs) =
      let rest = shift_confidence id delta hs in
      if h.id == id
      then record h { confidence = clamp_confidence (plus h.confidence delta) } ∷ hs
      else h ∷ rest

  -- adjustHypothesisConfidence
  unfoldable pub adjust_confidence :
      String → Float → Session Float → Option (MemoryStore Float) → Applied Float
  unfolding rescale_confidences shift_confidence
  adjust_confidence id delta s g =
      if contains (hypothesis_ids s) id
      then changed true
          (record s { hypotheses = rescale_confidences (shift_confidence id delta s.hypotheses) }) g
      else changed false s g

  -- &model.InvestigationPlan{}
  unfoldable pub blank_plan : InvestigationPlan Float
  blank_plan = record {
    id = "";
    goal = Goal.unset_goal;
    current_stage = Stage.unset_stage;
    questions = [];
    active_hypotheses = [];
    completed_questions = [];
    open_questions = [];
    evidence_requests = [];
    confidence = of_ℕ 0;
    resolution_history = [];
    playbook_id = "";
  }

  -- The case of CreateRecommendation
  unfoldable pub recommend : String → Session Float → Option (MemoryStore Float) → Applied Float
  unfolding blank_plan
  recommend text s g =
      changed (not (trim_space text == ""))
        (if is_some s.plan then s else record s { plan = some blank_plan }) g
