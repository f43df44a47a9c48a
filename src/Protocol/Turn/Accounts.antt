-- ===== src/Protocol/Turn/Accounts.antt =====
-- What a turn of the protocol engine reports: the metrics, the lists of the plan and its evidence
-- requests.
use incident_investigator.Prelude.{
  ◌≡◌, refl, sym, ap, ◌∙◌, arith, String, Bool, false, not, some, List, [], ◌∷◌, ◌<>◌, suc, ℕ, ◌+◌,
  ◌≤◌, inl, inr, Bool-cases, List-cases, filter, length, any, All, contains, length-take-le,
  All-take, map,
}
use incident_investigator.Prelude.Sorting.{All-sort}
use incident_investigator.Model.Platform.{Platform}
use incident_investigator.Model.Evidence.{Category}
use incident_investigator.Model.Protocol.{
  Question, InvestigationPlan, QuestionResolution, ProtocolEvidenceRequest, is_answered,
  is_rejected, is_fulfilled,
}
use incident_investigator.Model.Session.{Session, has_category}
use incident_investigator.Model.Signals.{Signals}
use incident_investigator.Protocol.Playbook.{Playbook}
use incident_investigator.Protocol.Questions.{is_open, question_ids}
use incident_investigator.Protocol.Requests.{
  sync_evidence_requests, planned_requests, collect_requests, request_for, missing_categories,
  by_gain,
}
use incident_investigator.Protocol.Effects.{apply_playbook_effects}
use incident_investigator.Protocol.Resolving.{update_plan_lists}
use incident_investigator.Protocol.Turn.{
  Working, extend_plan, advance, run, compute_protocol_metrics,
}

module _ (P : Platform) where
  open P use {Float}

  -- A request that asks for something, for nothing that the session already has, and is open.
  pub record Needed (has : Category → Bool) (r : ProtocolEvidenceRequest Float) : Type 0 where
    pub asks : (c : Category) × (rest : List Category) × (r.categories ≡ c ∷ rest)
    pub missing : any has r.categories ≡ false
    pub opened : is_fulfilled r.status ≡ false

  any-missing_categories :
      (s : Session Float) (cs : List Category)
      → any (has_category s) (missing_categories s cs) ≡ false
  unfolding missing_categories
  any-missing_categories s [] = refl
  any-missing_categories s (c ∷ cs) = ground (arith, any-missing_categories s cs)

  collect_requests-Needed :
      (s : Session Float) (qs : List (Question Float)) (keys : List String)
      → All (Needed (has_category s)) (collect_requests P s qs keys)
  unfolding collect_requests request_for
  collect_requests-Needed s [] keys = tt
  collect_requests-Needed s (q ∷ qs) keys = elim (Bool-cases (is_open q)) [
    | inr c ↦ rw c (collect_requests-Needed s qs keys)
    | inl o ↦ elim (List-cases (missing_categories s q.required_evidence)) [
      | inl none_missing ↦ rw (o, none_missing) (collect_requests-Needed s qs keys)
      | inr (c, cs, e) ↦
          let key = q.id <> ":" <> c in
          let needed : Needed (has_category s) (request_for P q c (c ∷ cs)) = record {
            asks = (c, cs, refl);
            missing = ap (any (has_category s)) (sym e) ∙ any-missing_categories s _;
            opened = refl;
          } in
          elim (Bool-cases (contains keys key)) [
            | inl old ↦ rw (o, e, old) (collect_requests-Needed s qs keys)
            | inr new ↦ rw (o, e, new) (needed, collect_requests-Needed s qs (key ∷ keys))
          ]
    ]
  ]

  planned_requests-Needed :
      (s : Session Float) (qs : List (Question Float))
      → All (Needed (has_category s)) (planned_requests P s qs)
  unfolding planned_requests
  planned_requests-Needed s qs =
      All-take (Needed (has_category s)) 2 _
        (All-sort (Needed (has_category s)) (by_gain P) _ (collect_requests-Needed s qs []))

  length-planned_requests :
      (s : Session Float) (qs : List (Question Float)) → length (planned_requests P s qs) ≤ 2
  unfolding planned_requests
  length-planned_requests s qs = length-take-le 2 _

  -- The three counts of a list of questions.
  counted :
      (qs : List (Question Float))
      → length qs
        ≡ length (filter (λ (q : Question Float). is_answered q.status) qs)
          + length (filter (λ (q : Question Float). is_rejected q.status) qs)
          + length (filter is_open qs)
  counted [] = refl
  counted (q ∷ qs) = ground (arith, counted qs)

  -- The requests of a plan: at most two, each one needed.
  abbrev Requested : Session Float → InvestigationPlan Float → Type 0
  Requested s plan =
      (length plan.evidence_requests ≤ 2) × All (Needed (has_category s)) plan.evidence_requests

  extend_plan-Requested :
      (pb : Playbook Float) (sig : Signals) (w : Working P)
      → Requested (extend_plan P pb sig w).session (extend_plan P pb sig w).plan
  unfolding extend_plan sync_evidence_requests has_category
  extend_plan-Requested pb sig w =
      (length-planned_requests w.session _, planned_requests-Needed w.session _)

  apply_playbook_effects-Requested :
      (pb : Playbook Float) (rs : List (QuestionResolution Float)) (s : Session Float)
      (plan : InvestigationPlan Float)
      → Requested s plan
      → Requested
          (apply_playbook_effects P pb rs s plan).0
          (apply_playbook_effects P pb rs s plan).1
  unfolding apply_playbook_effects has_category
  apply_playbook_effects-Requested pb rs s plan h = elim (List-cases s.hypotheses) [
    | inl e ↦ rw e h
    | inr (x, xs, e) ↦ rw e h
  ]

  advance-Requested :
      (pb : Playbook Float) (s : Session Float) (sig : Signals) (now : ℕ)
      → Requested (advance P pb s sig now).0.session (advance P pb s sig now).0.plan
  unfolding advance update_plan_lists
  advance-Requested pb s sig now =
      apply_playbook_effects-Requested pb _ _ _ (extend_plan-Requested pb sig _)

  none_fulfilled :
      (has : Category → Bool) (rs : List (ProtocolEvidenceRequest Float))
      → All (Needed has) rs
      → length (filter (λ (r : ProtocolEvidenceRequest Float). is_fulfilled r.status) rs) ≡ 0
  none_fulfilled has [] h = refl
  none_fulfilled has (r ∷ rs) h = ground (arith, h.0.opened, none_fulfilled has rs h.1)

  -- What the report of a turn says of the plan that the turn leaves.
  pub record Accounts (s : Session Float) (plan : InvestigationPlan Float) : Type 0 where
    pub all_counted : s.protocol_metrics.total_questions ≡ length plan.questions
    pub resolved_counted :
        s.protocol_metrics.resolved_questions
        ≡ length (filter (λ (q : Question Float). is_answered q.status) plan.questions)
    pub rejected_counted :
        s.protocol_metrics.rejected_questions
        ≡ length (filter (λ (q : Question Float). is_rejected q.status) plan.questions)
    pub pending_counted :
        s.protocol_metrics.pending_questions ≡ length (filter is_open plan.questions)
    pub total :
        s.protocol_metrics.total_questions
        ≡ s.protocol_metrics.resolved_questions + s.protocol_metrics.rejected_questions
          + s.protocol_metrics.pending_questions
    pub open_listed : plan.open_questions ≡ question_ids (filter is_open plan.questions)
    pub closed_listed :
        plan.completed_questions ≡ question_ids (filter (λ q. not (is_open q)) plan.questions)
    pub closed_counted :
        length plan.completed_questions
        ≡ s.protocol_metrics.resolved_questions + s.protocol_metrics.rejected_questions
    pub few : length plan.evidence_requests ≤ 2
    pub needed : All (Needed (has_category s)) plan.evidence_requests

  closed-filter :
      (qs : List (Question Float))
      → length (filter (λ q. not (is_open q)) qs)
        ≡ length (filter (λ (q : Question Float). is_answered q.status) qs)
          + length (filter (λ (q : Question Float). is_rejected q.status) qs)
  closed-filter [] = refl
  closed-filter (q ∷ qs) = ground (arith, closed-filter qs)

  length-ids :
      (qs : List (Question Float)) → length (map (λ (q : Question Float). q.id) qs) ≡ length qs
  length-ids [] = refl
  length-ids (q ∷ qs) = ap suc (length-ids qs)

  -- After Run the metrics count the questions of the plan and, among them, those that are answered,
  -- rejected and neither, and these three counts add up to the first. The plan lists the ids of its
  -- open questions and those of its closed ones, which are as many as are answered or rejected. It
  -- has at most two evidence requests. Each one is open, names at least one category, and none that
  -- the session has evidence of.
  pub run-Accounts :
      (pb : Playbook Float) (s : Session Float) (sig : Signals) (now : ℕ) (previous : Float)
      → (plan : InvestigationPlan Float) × ((run P pb s sig now previous).0.plan ≡ some plan)
        × Accounts (run P pb s sig now previous).0 plan
  unfolding run compute_protocol_metrics advance has_category update_plan_lists
  run-Accounts pb s sig now previous = (
    _,
    refl,
    record {
      all_counted = refl;
      resolved_counted = refl;
      rejected_counted = refl;
      pending_counted = refl;
      total = counted _;
      open_listed = refl;
      closed_listed = refl;
      closed_counted = length-ids _ ∙ closed-filter (advance P pb s sig now).0.plan.questions;
      few = (advance-Requested pb s sig now).0;
      needed = (advance-Requested pb s sig now).1;
    },
  )

  -- After Run the metrics report no completed evidence request, whatever evidence has come in since
  -- the requests were made.
  pub run_none_completed :
      (pb : Playbook Float) (s : Session Float) (sig : Signals) (now : ℕ) (previous : Float)
      → (run P pb s sig now previous).0.protocol_metrics.evidence_requests_completed ≡ 0
  unfolding run compute_protocol_metrics
  run_none_completed pb s sig now previous = none_fulfilled _ _ (advance-Requested pb s sig now).1
