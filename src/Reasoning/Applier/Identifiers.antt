-- ===== src/Reasoning/Applier/Identifiers.antt =====
-- The identifiers of the plan under the actions of reasoners.
use incident_investigator.Prelude.{
  String, false, ◌≡◌, refl, sym, subst, arith, Option, none, some, List, [], ◌∷◌, ◌++◌, inl, inr,
  map, contains, Bool-cases, Option-cases, Distinct, Distinct-concat, map-append,
}
use incident_investigator.Model.Platform.{Platform}
use incident_investigator.Model.Protocol.{
  Question, QuestionStatus, InvestigationPlan, ProtocolEvidenceRequest,
}
use incident_investigator.Model.Reasoning.{ReasoningAction, ActionType}
use incident_investigator.Model.Session.{Session}
use incident_investigator.Graph.Store.{MemoryStore}
use incident_investigator.Reasoning.Validator.{validate}
use incident_investigator.Reasoning.Changes.{
  append_question, set_question_status, append_evidence_request, change_plan, store_plan, recommend,
  add_to_questions, add_to_requests, close_question, with_question_status, plan_question_ids,
  request_ids, blank_plan,
}
use incident_investigator.Reasoning.Applier.{apply_as, apply_one}
use incident_investigator.Reasoning.Applier.Closed.{plan_kept}
use incident_investigator.Reasoning.Applier.Loop.{
  Batch, apply_next, apply_loop, apply, record_outcome,
}

module _ {F : Type 0} where
  -- No two questions of a plan, and no two of its requests, share an identifier.
  abbrev pub DistinctPlan : Option (InvestigationPlan F) → Type 0
  DistinctPlan none = Unit
  DistinctPlan (some plan) = Distinct (plan_question_ids plan) × Distinct (request_ids plan)

  ids-with_question_status :
      (id : String) (status : QuestionStatus) (qs : List (Question F))
      → map (λ (q : Question F). q.id) (with_question_status id status qs)
        ≡ map (λ (q : Question F). q.id) qs
  unfolding with_question_status
  ids-with_question_status id status [] = refl
  ids-with_question_status id status (q ∷ qs) =
      ground (arith, ids-with_question_status id status qs)

  add_to_questions-Distinct :
      (q : Question F) (plan : InvestigationPlan F)
      → DistinctPlan (some plan)
      → contains (plan_question_ids plan) q.id ≡ false
      → Distinct (map (λ (x : Question F). x.id) (plan.questions ++ q ∷ []))
  add_to_questions-Distinct q plan d e =
      subst Distinct (sym (map-append (λ (x : Question F). x.id) plan.questions (q ∷ [])))
        (Distinct-concat (plan_question_ids plan) q.id d.0 e)

  add_to_requests-Distinct :
      (r : ProtocolEvidenceRequest F) (plan : InvestigationPlan F)
      → DistinctPlan (some plan)
      → contains (request_ids plan) r.id ≡ false
      → Distinct (map (λ (x : ProtocolEvidenceRequest F). x.id) (plan.evidence_requests ++ r ∷ []))
  add_to_requests-Distinct r plan d e =
      subst Distinct
        (sym (map-append (λ (x : ProtocolEvidenceRequest F). x.id) plan.evidence_requests (r ∷ [])))
        (Distinct-concat (request_ids plan) r.id d.1 e)

  store_plan-DistinctPlan :
      (o : Option (InvestigationPlan F)) (s : Session F) (g : Option (MemoryStore F))
      → DistinctPlan s.plan
      → DistinctPlan o
      → DistinctPlan (store_plan o s g).session.plan
  unfolding store_plan
  store_plan-DistinctPlan none s g d h = d
  store_plan-DistinctPlan (some plan) s g d h = h

  change_plan-DistinctPlan :
      (f : InvestigationPlan F → Option (InvestigationPlan F))
      → ((plan : InvestigationPlan F) → DistinctPlan (some plan) → DistinctPlan (f plan))
      → (s : Session F) (g : Option (MemoryStore F)) → DistinctPlan s.plan
      → DistinctPlan (change_plan f s g).session.plan
  unfolding change_plan
  change_plan-DistinctPlan f keeps s g d = elim (Option-cases s.plan) [
    | inl e ↦ rw (e, change_plan) d
    | inr (plan, e) ↦
        rw (e, change_plan) (store_plan-DistinctPlan (f plan) s g d (keeps plan (rw e at d)))
  ]

  add_to_questions-DistinctPlan :
      (q : Question F) (plan : InvestigationPlan F)
      → DistinctPlan (some plan)
      → DistinctPlan (add_to_questions q plan)
  unfolding add_to_questions
  add_to_questions-DistinctPlan q plan d =
      elim (Bool-cases (contains (plan_question_ids plan) q.id)) [
        | inl e ↦ rw (e, add_to_questions) tt
        | inr e ↦ rw (e, add_to_questions) (add_to_questions-Distinct q plan d e, d.1)
      ]

  add_to_requests-DistinctPlan :
      (r : ProtocolEvidenceRequest F) (plan : InvestigationPlan F)
      → DistinctPlan (some plan)
      → DistinctPlan (add_to_requests r plan)
  unfolding add_to_requests
  add_to_requests-DistinctPlan r plan d = elim (Bool-cases (contains (request_ids plan) r.id)) [
    | inl e ↦ rw (e, add_to_requests) tt
    | inr e ↦ rw (e, add_to_requests) (d.0, add_to_requests-Distinct r plan d e)
  ]

  close_question-DistinctPlan :
      (id : String) (status : QuestionStatus) (plan : InvestigationPlan F)
      → DistinctPlan (some plan)
      → DistinctPlan (close_question id status plan)
  unfolding close_question
  close_question-DistinctPlan id status plan d =
      elim (Bool-cases (contains (plan_question_ids plan) id)) [
        | inl e ↦
            rw (e, close_question)
              (subst Distinct (sym (ids-with_question_status id status plan.questions)) d.0, d.1)
        | inr e ↦ rw (e, close_question) tt
      ]

  append_question-DistinctPlan :
      (q : Option (Question F)) (s : Session F) (g : Option (MemoryStore F))
      → DistinctPlan s.plan
      → DistinctPlan (append_question q s g).session.plan
  unfolding append_question
  append_question-DistinctPlan none s g d = d
  append_question-DistinctPlan (some q) s g d =
      change_plan-DistinctPlan (add_to_questions q) (add_to_questions-DistinctPlan q) s g d

  append_evidence_request-DistinctPlan :
      (r : Option (ProtocolEvidenceRequest F)) (s : Session F) (g : Option (MemoryStore F))
      → DistinctPlan s.plan
      → DistinctPlan (append_evidence_request r s g).session.plan
  unfolding append_evidence_request
  append_evidence_request-DistinctPlan none s g d = d
  append_evidence_request-DistinctPlan (some r) s g d =
      change_plan-DistinctPlan (add_to_requests r) (add_to_requests-DistinctPlan r) s g d

  set_question_status-DistinctPlan :
      (id : String) (status : QuestionStatus) (s : Session F) (g : Option (MemoryStore F))
      → DistinctPlan s.plan
      → DistinctPlan (set_question_status id status s g).session.plan
  unfolding set_question_status
  set_question_status-DistinctPlan id status s g d =
      change_plan-DistinctPlan (close_question id status) (close_question-DistinctPlan id status) s
        g d

module _ (P : Platform) where
  recommend-DistinctPlan :
      (text : String) (s : Session P.Float) (g : Option (MemoryStore P.Float))
      → DistinctPlan s.plan
      → DistinctPlan (recommend P text s g).session.plan
  unfolding recommend blank_plan
  recommend-DistinctPlan text s g d = elim (Option-cases s.plan) [
    | inl e ↦ rw (e, recommend, blank_plan) (tt, tt)
    | inr (plan, e) ↦ rw (e, recommend) (rw e at d)
  ]

  apply_as-DistinctPlan :
      (t : ActionType) (s : Session P.Float) (g : Option (MemoryStore P.Float))
      (a : ReasoningAction P.Float)
      → DistinctPlan s.plan
      → DistinctPlan (apply_as P t s g a).session.plan
  unfolding apply_as
  apply_as-DistinctPlan ActionType.resolve_question s g a d =
      set_question_status-DistinctPlan a.question_id _ s g d
  apply_as-DistinctPlan ActionType.reject_question s g a d =
      set_question_status-DistinctPlan a.question_id _ s g d
  apply_as-DistinctPlan ActionType.create_question s g a d =
      append_question-DistinctPlan a.question s g d
  apply_as-DistinctPlan ActionType.create_evidence_request s g a d =
      append_evidence_request-DistinctPlan a.evidence_request s g d
  apply_as-DistinctPlan ActionType.create_recommendation s g a d =
      recommend-DistinctPlan a.recommendation s g d
  apply_as-DistinctPlan t s g a d = subst DistinctPlan (sym (plan_kept P t s g a refl)) d

  apply_next-DistinctPlan :
      (b : Batch P.Float) (a : ReasoningAction P.Float)
      → DistinctPlan b.session.plan
      → DistinctPlan (apply_next P b a).session.plan
  unfolding apply_next record_outcome apply_one
  apply_next-DistinctPlan b a d = elim (Option-cases (validate P b.session b.graph a)) [
    | inr (m, e) ↦ rw (e, apply_next) d
    | inl e ↦ elim (Bool-cases (apply_one P b.session b.graph a).done) [
      | inl f ↦
          rw (e, apply_next, f, record_outcome) (apply_as-DistinctPlan a.type b.session b.graph a d)
      | inr f ↦
          rw (e, apply_next, f, record_outcome) (apply_as-DistinctPlan a.type b.session b.graph a d)
    ]
  ]

  apply_loop-DistinctPlan :
      (actions : List (ReasoningAction P.Float)) (b : Batch P.Float)
      → DistinctPlan b.session.plan
      → DistinctPlan (apply_loop P b actions).session.plan
  unfolding apply_loop
  apply_loop-DistinctPlan [] b d = d
  apply_loop-DistinctPlan (a ∷ actions) b d =
      apply_loop-DistinctPlan actions (apply_next P b a) (apply_next-DistinctPlan b a d)

  -- Where no two questions and no two requests of the plan share an identifier, that is so after any
  -- list of actions, and a plan that the actions create is so too.
  pub apply-DistinctPlan :
      (s : Session P.Float) (g : Option (MemoryStore P.Float))
      (actions : List (ReasoningAction P.Float))
      → DistinctPlan s.plan
      → DistinctPlan (apply P s g actions).session.plan
  unfolding apply
  apply-DistinctPlan s g actions d = apply_loop-DistinctPlan actions _ d
