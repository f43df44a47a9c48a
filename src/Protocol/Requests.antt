-- ===== src/Protocol/Requests.antt =====
-- The evidence requests of a plan: syncEvidenceRequests and its helpers in
-- internal/engine/protocol/engine.go.
use incident_investigator.Prelude.{
  leb, not, String, Bool, true, false, some, List, [], ◌∷◌, ◌++◌, ◌<>◌, all, contains, filter, map,
  foldl, length, take, if◌then◌else◌,
}
use incident_investigator.Prelude.Sorting.{sort}
use incident_investigator.Model.Platform.{Platform, clamp}
use incident_investigator.Model.Evidence.{Category, Priority, EvidenceRequest}
use incident_investigator.Model.Protocol.{
  Question, InvestigationPlan, ProtocolEvidenceRequest, RequestStatus, Stage, is_fulfilled,
}
use incident_investigator.Model.Session.{Session, has_category}
use incident_investigator.Protocol.Questions.{list_open_questions, is_open}

module _ {F : Type 0} where
  -- missingCategories
  unfoldable pub missing_categories : Session F → List Category → List Category
  missing_categories s required = filter (λ c. not (has_category s c)) required

  -- categoriesPresent
  unfoldable pub categories_present : Session F → List Category → Bool
  categories_present s cats = all (has_category s) cats

  -- priorityForQuestion
  unfoldable pub priority_for_question : Question F → Priority
  priority_for_question q =
      if leb 80 q.priority
      then Priority.high
      else if leb 50 q.priority
      then Priority.medium
      else Priority.low

  -- The request that a question stands in, for the legacy planner.
  unfoldable pub legacy_of_question : Question F → List EvidenceRequest
  unfolding priority_for_question
  legacy_of_question q =
      map (λ c. record { category = c; priority = priority_for_question q; reason = q.title })
        q.required_evidence

  -- The first loop of protocolToLegacyRequests.
  unfoldable pub legacy_of_requests : List (ProtocolEvidenceRequest F) → List EvidenceRequest
  legacy_of_requests [] = []
  legacy_of_requests (r ∷ rs) = elim r.categories [
    | [] ↦ legacy_of_requests rs
    | c ∷ cs ↦
        record { category = c; priority = r.priority; reason = r.reason } ∷ legacy_of_requests rs
  ]

  unfoldable pub legacy_of_questions : List (Question F) → List EvidenceRequest
  legacy_of_questions [] = []
  legacy_of_questions (q ∷ qs) = legacy_of_question q ++ legacy_of_questions qs

  -- protocolToLegacyRequests
  unfoldable pub protocol_to_legacy_requests :
      List (ProtocolEvidenceRequest F) → List (Question F) → List EvidenceRequest
  protocol_to_legacy_requests requests open_qs = elim (legacy_of_requests requests) [
    | [] ↦ legacy_of_questions open_qs
    | l ∷ ls ↦ l ∷ ls
  ]

  -- missingLegacyRequests
  unfoldable pub missing_legacy_requests : Session F → List EvidenceRequest → List EvidenceRequest
  missing_legacy_requests s required =
      filter (λ (r : EvidenceRequest). not (has_category s r.category)) required

-- joinCategories
unfoldable pub join_categories : List Category → String
join_categories [] = ""
join_categories (c ∷ cs) = foldl (λ out next. out <> ", " <> next) c cs

module _ (P : Platform) where
  open P use {Float, of_ℕ, plus, times, over, lt}

  -- expectedGain
  unfoldable pub expected_gain : Question Float → List Category → Float
  expected_gain q missing =
      clamp P (plus (over (of_ℕ q.priority) (of_ℕ 3)) (times (of_ℕ (length missing)) (of_ℕ 8)))
        (of_ℕ 10) (of_ℕ 40)

  -- The request that the loop makes for a question with missing categories.
  unfoldable pub request_for :
      Question Float → Category → List Category → ProtocolEvidenceRequest Float
  request_for q first missing = record {
    id = "req-" <> q.id <> "-" <> first;
    question_id = q.id;
    categories = missing;
    priority = priority_for_question q;
    reason = "Need " <> join_categories missing <> " to answer: " <> q.title;
    expected_confidence_gain = expected_gain q missing;
    status = RequestStatus.open_request;
  }

  -- The loop over the open questions. `keys` are the keys of the local map `reqIndex`.
  unfoldable pub collect_requests :
      Session Float → List (Question Float) → List String → List (ProtocolEvidenceRequest Float)
  collect_requests s [] keys = []
  collect_requests s (q ∷ qs) keys =
      if not (is_open q)
      then collect_requests s qs keys
      else elim (missing_categories s q.required_evidence) [
        | [] ↦ collect_requests s qs keys
        | first ∷ others ↦
            let key = q.id <> ":" <> first in
            elim (contains keys key) [
              | true ↦ collect_requests s qs keys
              | false ↦ request_for q first (first ∷ others) ∷ collect_requests s qs (key ∷ keys)
            ]
      ]

  abbrev pub by_gain : ProtocolEvidenceRequest Float → ProtocolEvidenceRequest Float → Bool
  by_gain a b = lt b.expected_confidence_gain a.expected_confidence_gain

  -- The requests that the plan gets: the two of the largest expected gain.
  unfoldable pub planned_requests :
      Session Float → List (Question Float) → List (ProtocolEvidenceRequest Float)
  unfolding collect_requests
  planned_requests s open_qs = take 2 (sort by_gain (collect_requests s open_qs []))

  -- The loop that marks the requests of the plan.
  unfoldable pub mark_fulfilled :
      Session Float → ProtocolEvidenceRequest Float → ProtocolEvidenceRequest Float
  mark_fulfilled s r =
      if is_fulfilled r.status
      then r
      else if categories_present s r.categories
      then record r { status = RequestStatus.fulfilled }
      else r

  abbrev pub mark_requests : Session Float → InvestigationPlan Float → InvestigationPlan Float
  mark_requests s plan = record plan {
    evidence_requests = map (mark_fulfilled s) plan.evidence_requests;
  }

  -- syncEvidenceRequests: the plan, and the session with the planner's output.
  unfoldable pub sync_evidence_requests :
      Session Float → InvestigationPlan Float → Session Float × InvestigationPlan Float
  sync_evidence_requests s plan =
      let open_qs = list_open_questions (some plan) in
      let requests = planned_requests s open_qs in
      let marked = mark_requests s plan in
      let required = protocol_to_legacy_requests requests open_qs in
      (
        record s {
          required_evidence = required;
          missing_evidence = missing_legacy_requests s required;
        },
        record marked { evidence_requests = requests; current_stage = Stage.evidence_collection },
      )
