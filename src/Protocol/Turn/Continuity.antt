-- ===== src/Protocol/Turn/Continuity.antt =====
-- What a turn of the protocol engine does to the questions of the plan.
use incident_investigator.Prelude.{
  ◌≡◌, refl, sym, ap, ◌∙◌, subst, arith, false, false≢true, some, List, [], ◌∷◌, ◌++◌, Distinct, ℕ,
  inl, inr, Bool-cases,
}
use incident_investigator.Model.Platform.{Platform}
use incident_investigator.Model.Protocol.{Question, InvestigationPlan, QuestionResolution}
use incident_investigator.Model.Session.{Session}
use incident_investigator.Model.Signals.{Signals}
use incident_investigator.Protocol.Playbook.{Playbook}
use incident_investigator.Protocol.Questions.{is_open, question_ids}
use incident_investigator.Protocol.Questions.Growth.{Grown, generated-Grown}
use incident_investigator.Protocol.Requests.{sync_evidence_requests}
use incident_investigator.Protocol.Effects.{apply_playbook_effects}
use incident_investigator.Protocol.Resolving.{
  resolve_one, resolve_loop, resolve_questions, update_plan_lists, update_partial_status,
  with_resolution,
}
use incident_investigator.Protocol.Turn.{Working, extend_plan, advance, run, plan_of}

module _ {F : Type 0} where
  -- A question as a later turn finds it: the same id, and unchanged once it is closed.
  pub record Kept (q r : Question F) : Type 0 where
    pub same_id : r.id ≡ q.id
    pub closed_stays : is_open q ≡ false → r ≡ q

  -- The questions of a list stand, in their order, at the front of a later list.
  abbrev pub Continues : List (Question F) → List (Question F) → Type 0
  Continues [] rs = Unit
  Continues (q ∷ qs) [] = ⊥
  Continues (q ∷ qs) (r ∷ rs) = Kept q r × Continues qs rs

  pub Continues-append : (qs rs : List (Question F)) → Continues qs (qs ++ rs)
  Continues-append [] rs = tt
  Continues-append (q ∷ qs) rs =
      (record { same_id = refl; closed_stays = λ c. refl }, Continues-append qs rs)

  Continues-Grown : (qs rs : List (Question F)) → Grown qs rs → Continues qs rs
  Continues-Grown qs rs g = subst (Continues qs) (sym g.extended) (Continues-append qs g.added)

  Kept-trans : (p q r : Question F) → Kept p q → Kept q r → Kept p r
  Kept-trans p q r h k = record {
    same_id = k.same_id ∙ h.same_id;
    closed_stays = λ c. k.closed_stays (ap is_open (h.closed_stays c) ∙ c) ∙ h.closed_stays c;
  }

  Continues-trans :
      (ps qs rs : List (Question F)) → Continues ps qs → Continues qs rs → Continues ps rs
  Continues-trans [] qs rs h k = tt
  Continues-trans (p ∷ ps) [] rs h k = elim h [ ]
  Continues-trans (p ∷ ps) (q ∷ qs) [] h k = elim k [ ]
  Continues-trans (p ∷ ps) (q ∷ qs) (r ∷ rs) h k =
      (Kept-trans p q r h.0 k.0, Continues-trans ps qs rs h.1 k.1)

  -- What a turn does to the questions: they continue, and distinct ids stay distinct.
  pub record Advanced (before after : List (Question F)) : Type 0 where
    pub continues : Continues before after
    pub distinct : Distinct (question_ids before) → Distinct (question_ids after)

  Advanced-trans : (ps qs rs : List (Question F)) → Advanced ps qs → Advanced qs rs → Advanced ps rs
  Advanced-trans ps qs rs h k = record {
    continues = Continues-trans ps qs rs h.continues k.continues;
    distinct = λ d. k.distinct (h.distinct d);
  }

module _ (P : Platform) where
  open P use {Float}

  resolve_one-Kept :
      (s : Session Float) (sig : Signals) (now : ℕ) (q : Question Float)
      → Kept q (resolve_one P s sig now q).0
  unfolding resolve_one update_partial_status with_resolution
  resolve_one-Kept s sig now q = elim (Bool-cases (is_open q)) [
    | inl o ↦ record { same_id = ground arith; closed_stays = λ c. absurd (false≢true (sym c ∙ o)) }
    | inr c ↦ record { same_id = ground arith; closed_stays = λ x. ground arith }
  ]

  resolve_loop-Continues :
      (s : Session Float) (sig : Signals) (now : ℕ) (qs : List (Question Float))
      → Continues qs (resolve_loop P s sig now qs).questions
  unfolding resolve_loop
  resolve_loop-Continues s sig now [] = tt
  resolve_loop-Continues s sig now (q ∷ qs) =
      (resolve_one-Kept s sig now q, resolve_loop-Continues s sig now qs)

  question_ids-resolve_loop :
      (s : Session Float) (sig : Signals) (now : ℕ) (qs : List (Question Float))
      → question_ids (resolve_loop P s sig now qs).questions ≡ question_ids qs
  unfolding resolve_loop
  question_ids-resolve_loop s sig now [] = refl
  question_ids-resolve_loop s sig now (q ∷ qs) =
      cc ((resolve_one-Kept s sig now q).same_id, question_ids-resolve_loop s sig now qs)

  resolve_questions-Advanced :
      (s : Session Float) (sig : Signals) (now : ℕ) (plan : InvestigationPlan Float)
      → Advanced plan.questions (resolve_questions P s sig now plan).0.questions
  unfolding resolve_questions
  resolve_questions-Advanced s sig now plan = record {
    continues = resolve_loop-Continues s sig now plan.questions;
    distinct = λ d. subst Distinct (sym (question_ids-resolve_loop s sig now plan.questions)) d;
  }

  extend_plan-Advanced :
      (pb : Playbook Float) (sig : Signals) (w : Working P)
      → Advanced w.plan.questions (extend_plan P pb sig w).plan.questions
  unfolding extend_plan sync_evidence_requests
  extend_plan-Advanced pb sig w =
      let g = generated-Grown P pb sig w.plan w.new_questions in
      record { continues = Continues-Grown _ _ g; distinct = g.distinct }

  questions-apply_playbook_effects :
      (pb : Playbook Float) (rs : List (QuestionResolution Float)) (s : Session Float)
      (plan : InvestigationPlan Float)
      → (apply_playbook_effects P pb rs s plan).1.questions ≡ plan.questions
  unfolding apply_playbook_effects
  questions-apply_playbook_effects pb rs s plan = ground arith

  advance-Advanced :
      (pb : Playbook Float) (s : Session Float) (sig : Signals) (now : ℕ)
      → Advanced (plan_of P pb s).questions (advance P pb s sig now).0.plan.questions
  unfolding advance update_plan_lists
  advance-Advanced pb s sig now =
      let w =
        extend_plan P pb sig (record { session = s; plan = plan_of P pb s; new_questions = [] }) in
      let resolved = resolve_questions P w.session sig now w.plan in
      let w2 = extend_plan P pb sig (record w { plan = resolved.0 }) in
      subst (Advanced (plan_of P pb s).questions)
        (sym (questions-apply_playbook_effects pb resolved.1 w2.session w2.plan))
        (Advanced-trans _ _ _
          (Advanced-trans _ _ _ (extend_plan-Advanced pb sig _)
            (resolve_questions-Advanced w.session sig now w.plan))
          (extend_plan-Advanced pb sig (record w { plan = resolved.0 })))

  -- Run leaves a session with a plan. The questions of the plan before stand at the front of its
  -- questions, in their order and under their ids, each one that was answered or rejected exactly as
  -- it was, with its resolution. Ids that were distinct stay distinct, however the playbook is
  -- written.
  pub run-Advanced :
      (pb : Playbook Float) (s : Session Float) (sig : Signals) (now : ℕ) (previous : Float)
      → (plan : InvestigationPlan Float) × ((run P pb s sig now previous).0.plan ≡ some plan)
        × Advanced (plan_of P pb s).questions plan.questions
  unfolding run
  run-Advanced pb s sig now previous = (_, refl, advance-Advanced pb s sig now)
