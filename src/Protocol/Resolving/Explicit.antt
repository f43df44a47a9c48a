-- ===== src/Protocol/Resolving/Explicit.antt =====
-- What ResolveQuestion does: the tool that resolves a question by hand.
use incident_investigator.Prelude.{
  ℕ, ◌≡◌, refl, ap, sym, subst, ◌∙◌, arith, eq_iff, false, ◌==◌, String, Bool, true, not, ◌&&◌,
  some, List, [], ◌∷◌, ◌++◌, any, contains, is_ok, is_some, ok, inl, inr, Option-cases, Bool-cases,
  if◌then◌else◌,
}
use incident_investigator.Model.Platform.{Platform}
use incident_investigator.Model.Protocol.{
  Question, QuestionStatus, InvestigationPlan, QuestionResolution, ResolutionStatus,
}
use incident_investigator.Model.Session.{Session}
use incident_investigator.Protocol.Playbook.{Playbook}
use incident_investigator.Protocol.Questions.{is_open, question_ids}
use incident_investigator.Protocol.Effects.{apply_playbook_effects}
use incident_investigator.Protocol.Resolving.{
  resolve_named, resolve_question, explicit_resolution, update_plan_lists,
}

module _ {F : Type 0} where
  abbrev pub is_closed_as : String → Question F → Bool
  is_closed_as id q = q.id == id && not (is_open q)

  -- The question as it is answered by hand: only its resolution, status and confidence change.
  abbrev pub answered_as : Bool → QuestionResolution F → Question F → Question F
  answered_as confirmed res q = record q {
    resolution = some res;
    status = if confirmed then QuestionStatus.answered else QuestionStatus.rejected;
    confidence = res.confidence;
  }

  -- The first question of that id is answered, and every other question stays as it was.
  pub record Replaced (id : String) (confirmed : Bool) (res : QuestionResolution F)
      (before after : List (Question F)) : Type 0 where
    pub earlier : List (Question F)
    pub asked : Question F
    pub others : List (Question F)
    pub found : before ≡ earlier ++ asked ∷ others
    pub named : asked.id ≡ id
    pub first : contains (question_ids earlier) id ≡ false
    pub answered : after ≡ earlier ++ answered_as confirmed res asked ∷ others

  -- What ResolveQuestion leaves of a plan: the question of that id is closed and holds the
  -- resolution, the other questions are as they were, and the history has one resolution more, which
  -- is about the question and answers it as asked.
  pub record Settled (id : String) (confirmed : Bool) (before after : InvestigationPlan F)
      (res : QuestionResolution F) : Type 0 where
    pub replaced : Replaced id confirmed res before.questions after.questions
    pub closed : any (is_closed_as id) after.questions ≡ true
    pub same_ids : question_ids after.questions ≡ question_ids before.questions
    pub recorded : after.resolution_history ≡ before.resolution_history ++ res ∷ []
    pub about : res.question_id ≡ id
    pub answer :
        res.status ≡ (if confirmed then ResolutionStatus.confirmed else ResolutionStatus.rejected)

module _ (P : Platform) (id : String) (confirmed : Bool) (reason : String) (now : ℕ) where
  open P use {Float}

  is_some-resolve_named :
      (qs : List (Question Float))
      → is_some (resolve_named P id confirmed reason now qs) ≡ contains (question_ids qs) id
  unfolding resolve_named
  is_some-resolve_named [] = refl
  is_some-resolve_named (q ∷ qs) = ground (arith, is_some-resolve_named qs)

  -- The questions and the resolution that the loop finds.
  record Named (qs after : List (Question Float)) (res : QuestionResolution Float) : Type 0 where
    replaced : Replaced id confirmed res qs after
    closed : any (is_closed_as id) after ≡ true
    same_ids : question_ids after ≡ question_ids qs
    about : res.question_id ≡ id
    answer :
        res.status ≡ (if confirmed then ResolutionStatus.confirmed else ResolutionStatus.rejected)

  later :
      (q : Question Float) (qs others after : List (Question Float))
      (r res : QuestionResolution Float)
      → Named qs others r
      → (q.id == id) ≡ false
      → after ≡ q ∷ others
      → res ≡ r
      → Named (q ∷ qs) after res
  later q qs others after r res n miss same answer = record {
    replaced =
        let old = n.replaced in
        record {
          earlier = q ∷ old.earlier;
          asked = old.asked;
          others = old.others;
          found = ap (λ xs. q ∷ xs) old.found;
          named = old.named;
          first = ground (arith, old.first);
          answered =
              same
              ∙ ap (λ xs. q ∷ xs) old.answered
              ∙ ap (λ x. q ∷ (old.earlier ++ answered_as confirmed x old.asked ∷ old.others))
                  (sym answer);
        };
    closed = ground (arith, n.closed);
    same_ids = ground (arith, n.same_ids);
    about = ground (arith, n.about);
    answer = ground (arith, n.answer);
  }

  resolve_named-Named :
      (qs after : List (Question Float)) (res : QuestionResolution Float)
      → resolve_named P id confirmed reason now qs ≡ some (after, res)
      → Named qs after res
  unfolding resolve_named explicit_resolution
  resolve_named-Named [] after res h = cc
  resolve_named-Named (q ∷ qs) after res h = elim (Bool-cases (q.id == id)) [
    | inl hit ↦ record {
      replaced = record {
        earlier = [];
        asked = q;
        others = qs;
        found = refl;
        named = (eq_iff q.id id).0 hit;
        first = refl;
        answered = ground arith;
      };
      closed = ground arith;
      same_ids = ground arith;
      about = ground arith;
      answer = ground arith;
    }
    | inr miss ↦ elim (Option-cases (resolve_named P id confirmed reason now qs)) [
      | inl absent ↦ cc (rw (miss, absent) at h)
      | inr ((others, r), e) ↦
          later q qs others after r res (resolve_named-Named qs others r e) miss (ground arith)
            (ground arith)
    ]
  ]

  effects_keep :
      (pb : Playbook Float) (rs : List (QuestionResolution Float)) (s : Session Float)
      (plan : InvestigationPlan Float)
      → ((apply_playbook_effects P pb rs s plan).1.questions ≡ plan.questions)
        × ((apply_playbook_effects P pb rs s plan).1.resolution_history ≡ plan.resolution_history)
  unfolding apply_playbook_effects
  effects_keep pb rs s plan = (ground arith, ground arith)

  settle :
      (plan next : InvestigationPlan Float) (questions : List (Question Float))
      (r res : QuestionResolution Float)
      → Named plan.questions questions r
      → next.questions ≡ questions
      → next.resolution_history ≡ plan.resolution_history ++ r ∷ []
      → res ≡ r
      → Settled id confirmed plan next res
  settle plan next questions r res n now_asked grown same = record {
    replaced =
        subst (λ x. Replaced id confirmed x plan.questions next.questions) (sym same)
          (subst (Replaced id confirmed r plan.questions) (sym now_asked) n.replaced);
    closed = ap (any (is_closed_as id)) now_asked ∙ n.closed;
    same_ids = ap question_ids now_asked ∙ n.same_ids;
    recorded =
        grown ∙ ap (λ (x : QuestionResolution Float). plan.resolution_history ++ x ∷ []) (sym same);
    about = ground (arith, n.about);
    answer = ground (arith, n.answer);
  }

  -- ResolveQuestion succeeds exactly if the plan has a question of that id.
  pub is_ok-resolve_question :
      (pb : Playbook Float) (s : Session Float) (plan : InvestigationPlan Float)
      → is_ok (resolve_question P pb id confirmed reason now s plan)
        ≡ contains (question_ids plan.questions) id
  unfolding resolve_question
  is_ok-resolve_question pb s plan = ground (arith, is_some-resolve_named plan.questions)

  -- Where ResolveQuestion succeeds, the first question of that id is answered if it is confirmed and
  -- rejected if not, holds the resolution and its confidence, and keeps all else. Every other question
  -- stays as it was. The history has one resolution more, about the question, confirmed or rejected as
  -- asked.
  pub resolve_question-Settled :
      (pb : Playbook Float) (s after : Session Float) (plan next : InvestigationPlan Float)
      (res : QuestionResolution Float)
      → resolve_question P pb id confirmed reason now s plan ≡ ok (after, next, res)
      → Settled id confirmed plan next res
  unfolding resolve_question update_plan_lists
  resolve_question-Settled pb s after plan next res h =
      elim (Option-cases (resolve_named P id confirmed reason now plan.questions)) [
        | inl absent ↦ cc (rw (absent, resolve_question) at h)
        | inr ((questions, r), e) ↦
            let recorded : InvestigationPlan Float = record plan {
              questions = questions;
              resolution_history = plan.resolution_history ++ r ∷ [];
            } in
            let kept = effects_keep pb (r ∷ []) s recorded in
            settle plan next questions r res (resolve_named-Named plan.questions questions r e)
              (ground (arith, kept.0)) (ground (arith, kept.1)) (ground arith)
      ]
