-- ===== src/Protocol/Questions/Growth.antt =====
-- How the questions of a plan grow: what ensureQuestions and generateDynamicQuestions add.
use mathlib.Core.List.{append-nil, append_assoc}
use incident_investigator.Prelude.{
  subst, ◌≡◌, refl, sym, ap, ◌∙◌, arith, String, Bool, true, false, List, [], ◌∷◌, ◌++◌, contains,
  Distinct, Distinct-concat, All, All-append, if◌then◌else◌,
}
use incident_investigator.Model.Platform.{Platform}
use incident_investigator.Model.Protocol.{Question, InvestigationPlan}
use incident_investigator.Model.Signals.{Signals}
use incident_investigator.Protocol.Playbook.{Playbook, PlaybookQuestion}
use incident_investigator.Protocol.Questions.{
  Generated, is_open, question_ids, playbook_question_to_model, ensure_loop, ensure_questions,
  add_question, trigger_loop, unlock_one, unlock_all, unlock_loop, generate_dynamic, is_confirmed,
  parent_generates,
}

module _ {F : Type 0} where
  question_ids-append :
      (xs ys : List (Question F)) → question_ids (xs ++ ys) ≡ question_ids xs ++ question_ids ys
  question_ids-append [] ys = refl
  question_ids-append (x ∷ xs) ys = ap (λ rest. x.id ∷ rest) (question_ids-append xs ys)

  -- The second list is the first with open questions behind it, and no id is repeated that was not
  -- repeated before.
  pub record Grown (before after : List (Question F)) : Type 0 where
    pub added : List (Question F)
    pub extended : after ≡ before ++ added
    pub all_open : All (λ q. is_open q ≡ true) added
    pub distinct : Distinct (question_ids before) → Distinct (question_ids after)

  pub Grown-refl : (qs : List (Question F)) → Grown qs qs
  Grown-refl qs = record {
    added = [];
    extended = sym (append-nil qs);
    all_open = tt;
    distinct = λ d. d;
  }

  pub Grown-trans : (xs ys zs : List (Question F)) → Grown xs ys → Grown ys zs → Grown xs zs
  Grown-trans xs ys zs g h = record {
    added = g.added ++ h.added;
    extended =
        h.extended ∙ ap (λ front. front ++ h.added) g.extended ∙ append_assoc xs g.added h.added;
    all_open = All-append _ g.added h.added g.all_open h.all_open;
    distinct = λ d. h.distinct (g.distinct d);
  }

  Grown-add :
      (qs : List (Question F)) (q : Question F)
      → is_open q ≡ true
      → contains (question_ids qs) q.id ≡ false
      → Grown qs (qs ++ q ∷ [])
  Grown-add qs q o fresh = record {
    added = q ∷ [];
    extended = refl;
    all_open = (o, tt);
    distinct = λ d.
        subst Distinct (sym (question_ids-append qs (q ∷ [])))
          (Distinct-concat (question_ids qs) q.id d fresh);
  }

module _ (P : Platform) where
  open P use {Float}

  -- A question of the playbook is added unless a test holds.
  Grown-if :
      (qs : List (Question Float)) (pq : PlaybookQuestion Float) (skip : Bool)
      → (skip ≡ false → contains (question_ids qs) pq.id ≡ false)
      → Grown qs (if skip then qs else qs ++ playbook_question_to_model P pq ∷ [])
  unfolding playbook_question_to_model
  Grown-if qs pq true fresh = Grown-refl qs
  Grown-if qs pq false fresh = Grown-add qs (playbook_question_to_model P pq) refl (fresh refl)

  ensure_loop-Grown :
      (pqs : List (PlaybookQuestion Float)) (qs : List (Question Float))
      → Grown qs (ensure_loop P pqs qs)
  unfolding ensure_loop
  ensure_loop-Grown [] qs = Grown-refl qs
  ensure_loop-Grown (pq ∷ pqs) qs =
      Grown-trans _ _ _ (Grown-if qs pq _ (λ e. ground arith)) (ensure_loop-Grown pqs _)

  add_question-Grown :
      (g : Generated P) (pq : PlaybookQuestion Float) (skip : Bool)
      → (skip ≡ false → contains (question_ids g.questions) pq.id ≡ false)
      → Grown g.questions (if skip then g else add_question P g pq).questions
  unfolding add_question playbook_question_to_model
  add_question-Grown g pq true fresh = Grown-refl g.questions
  add_question-Grown g pq false fresh =
      Grown-add g.questions (playbook_question_to_model P pq) refl (fresh refl)

  trigger_loop-Grown :
      (sig : Signals) (pqs : List (PlaybookQuestion Float)) (g : Generated P)
      → Grown g.questions (trigger_loop P sig pqs g).questions
  unfolding trigger_loop
  trigger_loop-Grown sig [] g = Grown-refl g.questions
  trigger_loop-Grown sig (pq ∷ pqs) g =
      Grown-trans _ _ _ (add_question-Grown g pq _ (λ e. ground arith))
        (trigger_loop-Grown sig pqs _)

  unlock_one-Grown :
      (pq : PlaybookQuestion Float) (gens : List String) (g : Generated P)
      → Grown g.questions (unlock_one P pq gens g).questions
  unfolding unlock_one
  unlock_one-Grown pq [] g = Grown-refl g.questions
  unlock_one-Grown pq (gen ∷ gens) g =
      Grown-trans _ _ _ (add_question-Grown g pq _ (λ e. ground arith)) (unlock_one-Grown pq gens _)

  unlock_all-Grown :
      (gens : List String) (pqs : List (PlaybookQuestion Float)) (g : Generated P)
      → Grown g.questions (unlock_all P gens pqs g).questions
  unfolding unlock_all
  unlock_all-Grown gens [] g = Grown-refl g.questions
  unlock_all-Grown gens (pq ∷ pqs) g =
      Grown-trans _ _ _ (unlock_one-Grown pq gens g) (unlock_all-Grown gens pqs _)

  unlock_step-Grown :
      (pb : Playbook Float) (id : String) (confirmed : Bool) (g : Generated P)
      → Grown g.questions
          (if confirmed then unlock_all P (parent_generates pb id) pb.questions g else g).questions
  unlock_step-Grown pb id true g = unlock_all-Grown (parent_generates pb id) pb.questions g
  unlock_step-Grown pb id false g = Grown-refl g.questions

  unlock_loop-Grown :
      (pb : Playbook Float) (qs : List (Question Float)) (g : Generated P)
      → Grown g.questions (unlock_loop P pb qs g).questions
  unfolding unlock_loop
  unlock_loop-Grown pb [] g = Grown-refl g.questions
  unlock_loop-Grown pb (q ∷ qs) g =
      Grown-trans _ _ _ (unlock_step-Grown pb q.id (is_confirmed P q.resolution) g)
        (unlock_loop-Grown pb qs _)

  generate_dynamic-Grown :
      (pb : Playbook Float) (sig : Signals) (qs new : List (Question Float))
      → Grown qs (generate_dynamic P pb sig qs new).questions
  unfolding generate_dynamic
  generate_dynamic-Grown pb sig qs new =
      let g = trigger_loop P sig pb.questions (record { questions = qs; new_questions = new }) in
      Grown-trans _ _ _
        (trigger_loop-Grown sig pb.questions (record { questions = qs; new_questions = new }))
        (unlock_loop-Grown pb g.questions g)

  -- Whatever the playbook and the signals, ensureQuestions followed by generateDynamicQuestions
  -- leaves the questions of the plan as they stand at its front, puts only open questions behind
  -- them, and if no two questions of the plan had the same id then none have it afterwards.
  pub generated-Grown :
      (pb : Playbook Float) (sig : Signals) (plan : InvestigationPlan Float)
      (new : List (Question Float))
      → Grown plan.questions
          (generate_dynamic P pb sig (ensure_questions P pb plan).questions new).questions
  unfolding ensure_questions
  generated-Grown pb sig plan new =
      Grown-trans _ _ _ (ensure_loop-Grown pb.questions plan.questions)
        (generate_dynamic-Grown pb sig _ new)
