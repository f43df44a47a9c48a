-- ===== src/Reasoning/Applier/Closed.antt =====
-- What the actions of reasoners do to the questions and the requests of the plan.
use incident_investigator.Prelude.{
  String, Bool, true, false, ◌≡◌, refl, arith, Option, none, some, List, [], ◌∷◌, ◌++◌, ◌==◌, inl,
  inr, find, is_some, Bool-cases, Option-cases, eq_iff,
}
use incident_investigator.Model.Platform.{Platform}
use incident_investigator.Model.Protocol.{Question, QuestionStatus, ProtocolEvidenceRequest}
use incident_investigator.Model.Reasoning.{ReasoningAction, ActionType}
use incident_investigator.Model.Session.{Session}
use incident_investigator.Graph.Store.{MemoryStore}
use incident_investigator.Reasoning.Validator.{
  validate, validate_as, is_closed, find_question, check_open_question, check_found_question,
}
use incident_investigator.Reasoning.Changes.{
  adjust_confidence, set_hypothesis_status, append_hypothesis, append_contradiction, link_nodes,
  append_question, set_question_status, append_evidence_request, change_plan, store_plan, recommend,
  add_to_questions, add_to_requests, close_question, with_question_status,
}
use incident_investigator.Reasoning.Applier.{apply_as, apply_one}
use incident_investigator.Reasoning.Applier.Loop.{
  Batch, apply_next, apply_loop, apply, record_outcome,
}

module _ {F : Type 0} where
  -- The question with an id, where the session has a plan.
  unfoldable pub question_in : Session F → String → Option (Question F)
  question_in s id = elim s.plan [ none ↦ none | some plan ↦ find_question plan id ]

  find-append :
      (id : String) (qs rs : List (Question F)) (q : Question F)
      → find (λ (x : Question F). x.id == id) qs ≡ some q
      → find (λ (x : Question F). x.id == id) (qs ++ rs) ≡ some q
  find-append id [] rs q h = cc
  find-append id (x ∷ qs) rs q h = ground (arith, find-append id qs rs q)

  find-with_question_status :
      (id other : String) (status : QuestionStatus) (qs : List (Question F)) (q : Question F)
      → (other == id) ≡ false
      → find (λ (x : Question F). x.id == id) qs ≡ some q
      → find (λ (x : Question F). x.id == id) (with_question_status other status qs) ≡ some q
  unfolding with_question_status
  find-with_question_status id other status [] q o h = cc
  find-with_question_status id other status (x ∷ qs) q o h = ground (
    arith,
    find-with_question_status id other status qs q,
    eq_iff x.id other,
    eq_iff x.id id,
    eq_iff other id,
  )

  question_in-add :
      (id : String) (r : Question F) (s : Session F) (g : Option (MemoryStore F)) (q : Question F)
      → question_in s id ≡ some q
      → question_in (append_question (some r) s g).session id ≡ some q
  unfolding question_in append_question change_plan store_plan add_to_questions find_question
  question_in-add id r s g q h = elim (Option-cases s.plan) [
    | inl e ↦ cc (rw e at h)
    | inr (plan, e) ↦ ground (arith, find-append id plan.questions (r ∷ []) q)
  ]

  question_in-append_question :
      (id : String) (r : Option (Question F)) (s : Session F) (g : Option (MemoryStore F))
      (q : Question F)
      → question_in s id ≡ some q
      → question_in (append_question r s g).session id ≡ some q
  unfolding append_question
  question_in-append_question id none s g q h = h
  question_in-append_question id (some r) s g q h = question_in-add id r s g q h

  -- What does not touch the questions of the plan leaves them.
  question_in-same :
      (id : String) (s r : Session F) (q : Question F)
      → r.plan ≡ s.plan
      → question_in s id ≡ some q
      → question_in r id ≡ some q
  unfolding question_in
  question_in-same id s r q e h = ground arith

  question_in-append_evidence_request :
      (id : String) (r : Option (ProtocolEvidenceRequest F)) (s : Session F)
      (g : Option (MemoryStore F)) (q : Question F)
      → question_in s id ≡ some q
      → question_in (append_evidence_request r s g).session id ≡ some q
  unfolding question_in append_evidence_request change_plan store_plan add_to_requests find_question
  question_in-append_evidence_request id r s g q h = ground arith

  question_in-other :
      (id other : String) (status : QuestionStatus) (s : Session F) (g : Option (MemoryStore F))
      (q : Question F)
      → (other == id) ≡ false
      → question_in s id ≡ some q
      → question_in (set_question_status other status s g).session id ≡ some q
  unfolding question_in set_question_status change_plan store_plan close_question find_question
  question_in-other id other status s g q o h = elim (Option-cases s.plan) [
    | inl e ↦ cc (rw e at h)
    | inr (plan, e) ↦ ground (arith, find-with_question_status id other status plan.questions q)
  ]

module _ (P : Platform) where
  -- The validator refuses to resolve a question that is closed.
  check_open_question_closed :
      (id : String) (s : Session P.Float) (q : Question P.Float)
      → question_in s id ≡ some q
      → is_closed q.status ≡ true
      → is_some (check_open_question P s.plan id) ≡ true
  unfolding question_in check_open_question check_found_question
  check_open_question_closed id s q h c = elim (Option-cases s.plan) [
    | inl e ↦ cc (rw e at h)
    | inr (plan, e) ↦ ground arith
  ]

  question_in-set :
      (id other : String) (status : QuestionStatus) (s : Session P.Float)
      (g : Option (MemoryStore P.Float)) (q : Question P.Float)
      → question_in s id ≡ some q
      → is_closed q.status ≡ true
      → check_open_question P s.plan other ≡ none
      → question_in (set_question_status other status s g).session id ≡ some q
  question_in-set id other status s g q h c v = elim (Bool-cases (other == id)) [
    | inl e ↦ ground (arith, check_open_question_closed id s q h c, eq_iff other id)
    | inr e ↦ question_in-other id other status s g q e h
  ]

  question_in-recommend :
      (id text : String) (s : Session P.Float) (g : Option (MemoryStore P.Float))
      (q : Question P.Float)
      → question_in s id ≡ some q
      → question_in (recommend P text s g).session id ≡ some q
  unfolding question_in recommend
  question_in-recommend id text s g q h = ground arith

  -- The actions that write to the plan.
  abbrev pub plans : ActionType → Bool
  plans ActionType.resolve_question = true
  plans ActionType.reject_question = true
  plans ActionType.create_question = true
  plans ActionType.create_evidence_request = true
  plans ActionType.create_recommendation = true
  plans _ = false

  pub plan_kept :
      (t : ActionType) (s : Session P.Float) (g : Option (MemoryStore P.Float))
      (a : ReasoningAction P.Float)
      → plans t ≡ false
      → (apply_as P t s g a).session.plan ≡ s.plan
  unfolding apply_as adjust_confidence set_hypothesis_status append_hypothesis append_contradiction
      link_nodes
  plan_kept t s g a e = ground arith

  question_in-apply_as :
      (t : ActionType) (s : Session P.Float) (g : Option (MemoryStore P.Float))
      (a : ReasoningAction P.Float) (id : String) (q : Question P.Float)
      → question_in s id ≡ some q
      → is_closed q.status ≡ true
      → validate_as P t s g a ≡ none
      → question_in (apply_as P t s g a).session id ≡ some q
  unfolding validate_as apply_as
  question_in-apply_as ActionType.resolve_question s g a id q h c v =
      question_in-set id a.question_id _ s g q h c v
  question_in-apply_as ActionType.reject_question s g a id q h c v =
      question_in-set id a.question_id _ s g q h c v
  question_in-apply_as ActionType.create_question s g a id q h c v =
      question_in-append_question id a.question s g q h
  question_in-apply_as ActionType.create_evidence_request s g a id q h c v =
      question_in-append_evidence_request id a.evidence_request s g q h
  question_in-apply_as ActionType.create_recommendation s g a id q h c v =
      question_in-recommend id a.recommendation s g q h
  question_in-apply_as t s g a id q h c v =
      question_in-same id s (apply_as P t s g a).session q (plan_kept t s g a refl) h

  question_in-apply_next :
      (b : Batch P.Float) (a : ReasoningAction P.Float) (id : String) (q : Question P.Float)
      → question_in b.session id ≡ some q
      → is_closed q.status ≡ true
      → question_in (apply_next P b a).session id ≡ some q
  unfolding apply_next validate apply_one record_outcome
  question_in-apply_next b a id q h c =
      elim (Option-cases (validate_as P a.type b.session b.graph a)) [
        | inl e ↦ ground (arith, question_in-apply_as a.type b.session b.graph a id q h c e)
        | inr (m, e) ↦ ground arith
      ]

  question_in-apply_loop :
      (actions : List (ReasoningAction P.Float)) (b : Batch P.Float) (id : String)
      (q : Question P.Float)
      → question_in b.session id ≡ some q
      → is_closed q.status ≡ true
      → question_in (apply_loop P b actions).session id ≡ some q
  unfolding apply_loop
  question_in-apply_loop [] b id q h c = h
  question_in-apply_loop (a ∷ actions) b id q h c =
      question_in-apply_loop actions (apply_next P b a) id q (question_in-apply_next b a id q h c) c

  -- A question of the plan that is answered or rejected stays what it is, whatever actions the
  -- reasoners propose: neither its status nor any other of its fields changes.
  pub apply_keeps_closed :
      (s : Session P.Float) (g : Option (MemoryStore P.Float))
      (actions : List (ReasoningAction P.Float)) (id : String) (q : Question P.Float)
      → question_in s id ≡ some q
      → is_closed q.status ≡ true
      → question_in (apply P s g actions).session id ≡ some q
  unfolding apply
  apply_keeps_closed s g actions id q h c = question_in-apply_loop actions _ id q h c
