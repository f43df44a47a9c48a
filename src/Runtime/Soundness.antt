-- ===== src/Runtime/Soundness.antt =====
-- What the operations of the runtime keep in the store of sessions.
use incident_investigator.Prelude.{
  ◌≡◌, refl, ap, sym, ◌∙◌, subst, ℕ, String, Bool, Option, none, some, List, [], ◌∷◌, ◌++◌, ◌==◌,
  inl, inr, Bool-cases, Option-cases, length, is_some, Result, ok, err, ◌⊎◌,
}
use incident_investigator.Prelude.Dict.{
  Dict, lookup, AllEntries, insert-AllEntries, lookup-AllEntries,
}
use incident_investigator.Model.Platform.{Platform}
use incident_investigator.Model.Evidence.{Evidence}
use incident_investigator.Model.Protocol.{QuestionResolution, InvestigationPlan}
use incident_investigator.Model.Session.{Session, is_completed, add_history, add_journal}
use incident_investigator.Protocol.Playbook.{Playbook}
use incident_investigator.Protocol.Resolving.{resolve_question, resolve_named}
use incident_investigator.Runtime.Sessions.{
  with_session_absent, with_session_present, RuntimeError, Outcome, with_session, save_session,
}
use incident_investigator.Runtime.Recompute.{Setup, Moment, Calibration, recompute}
use incident_investigator.Runtime.Frame.{Given, given, given-recompute, given-effects}
use incident_investigator.Runtime.Starting.{
  StartInput, start, new_session, goal_or_default, is_bad_window, is_valid_goal,
}
use incident_investigator.Runtime.Submitting.{
  submit, submit_to, after_ingest, ingest, evidence_ids, note_batch,
}
use incident_investigator.Runtime.Submitting.Batches.{Clean, ingest-Clean}
use incident_investigator.Runtime.Operations.{
  ResolveQuestionInput, answer, answer_with, answer_on, record_answer, close, conclude, archive,
}

module _ (P : Platform) (R : Setup P) where
  -- A session is stored under its identifier, and its evidence is clean.
  abbrev pub Sound : String → Session P.Float → Type 0
  Sound id s = (s.id ≡ id) × Clean P s.evidence

  Sound-given : (id : String) (s t : Session P.Float) → given t ≡ given s → Sound id s → Sound id t
  unfolding given
  Sound-given id s t e h = (
    ap (λ (g : Given). g.id) e ∙ h.0,
    subst (Clean P) (sym (ap (λ (g : Given). g.evidence) e)) h.1,
  )

  pub with_session-Sound :
      {A : Type 0} (id : String) (f : Session P.Float → Session P.Float × Outcome A)
      → ((s : Session P.Float) → Sound id s → Sound id (f s).0)
      → (m : Dict (Session P.Float)) → AllEntries Sound m
      → AllEntries Sound (with_session id f m).0
  with_session-Sound id f keeps m h = elim (Option-cases (lookup id m)) [
    | inl e ↦ subst (λ out. AllEntries Sound out.0) (sym (with_session_absent id f m e)) h
    | inr (s, e) ↦
        subst (λ out. AllEntries Sound out.0) (sym (with_session_present id f m s e))
          (insert-AllEntries Sound id (f s).0 m (keeps s (lookup-AllEntries Sound id m h e)) h)
  ]

  pub recompute-Sound :
      (id : String) (w : Moment P.Float) (s : Session P.Float)
      → Sound id s
      → Sound id (recompute P R w s)
  recompute-Sound id w s h = Sound-given id s _ (given-recompute P R w s) h

  pub start-cases :
      (id : String) (w : Moment P.Float) (input : StartInput) (m : Dict (Session P.Float))
      → ((start P R id w input m).0 ≡ m)
        ⊎ ((start P R id w input m).0
            ≡ save_session
                (recompute P R w (new_session P id w.now input (goal_or_default input.goal)))
                m)
  unfolding start
  start-cases id w input m = elim (Bool-cases (P.trim_space input.question == "")) [
    | inl a ↦ inl (rw a refl)
    | inr a ↦ elim (Bool-cases (is_bad_window input.time_window)) [
      | inl b ↦ inl (rw (a, b) refl)
      | inr b ↦ elim (Bool-cases (is_valid_goal (goal_or_default input.goal))) [
        | inl c ↦ inr (rw (a, b, c) refl)
        | inr c ↦ inl (rw (a, b, c) refl)
      ]
    ]
  ]

  abbrev pub opened_session : String → Moment P.Float → StartInput → Session P.Float
  opened_session id w input =
      recompute P R w (new_session P id w.now input (goal_or_default input.goal))

  opened_session-Sound :
      (id : String) (w : Moment P.Float) (input : StartInput)
      → Sound (opened_session id w input).id (opened_session id w input)
  unfolding given new_session add_journal add_history
  opened_session-Sound id w input = (
    refl,
    subst (Clean P)
        (sym (
          ap (λ (g : Given). g.evidence)
            (given-recompute P R w (new_session P id w.now input (goal_or_default input.goal)))))
        (tt, tt),
  )

  save_session-Sound :
      (s : Session P.Float) (m : Dict (Session P.Float))
      → Sound s.id s
      → AllEntries Sound m
      → AllEntries Sound (save_session s m)
  unfolding save_session
  save_session-Sound s m h all = insert-AllEntries Sound s.id s m h all

  pub start-Sound :
      (id : String) (w : Moment P.Float) (input : StartInput) (m : Dict (Session P.Float))
      → AllEntries Sound m
      → AllEntries Sound (start P R id w input m).0
  start-Sound id w input m h = elim (start-cases id w input m) [
    | inl e ↦ subst (AllEntries Sound) (sym e) h
    | inr e ↦
        subst (AllEntries Sound) (sym e)
          (save_session-Sound (opened_session id w input) m (opened_session-Sound id w input) h)
  ]

  after_ingest-Sound :
      (id : String) (w : Moment P.Float) (count : ℕ) (s : Session P.Float)
      (out : List Evidence × Option RuntimeError)
      → s.id ≡ id
      → Clean P out.0
      → Sound id (after_ingest P R w count s out).0
  unfolding after_ingest note_batch add_history add_journal
  after_ingest-Sound id w count s (stored, some error) i c = (i, c)
  after_ingest-Sound id w count s (stored, none) i c =
      recompute-Sound id w (note_batch P R w.now count stored s) (i, c)

  submit_to-Sound :
      (id : String) (fresh : ℕ → String) (w : Moment P.Float) (items : List (Option Evidence))
      (s : Session P.Float)
      → Sound id s
      → Sound id (submit_to P R fresh w items s).0
  unfolding submit_to
  submit_to-Sound id fresh w items s h = elim (Bool-cases (is_completed s.status)) [
    | inl e ↦ rw e h
    | inr e ↦ rw e (
        after_ingest-Sound id w (length items) s
          (ingest P fresh w.now 0 (evidence_ids s) s.evidence items) h.0
          (ingest-Clean P fresh w.now 0 (evidence_ids s) s.evidence items refl h.1))
  ]

  -- The protocol engine leaves what the client has given.
  abbrev Keeps :
      Session P.Float
      → Result String (Session P.Float × InvestigationPlan P.Float × QuestionResolution P.Float)
      → Type 0
  Keeps s (err message) = Unit
  Keeps s (ok (moved, plan, res)) = given moved ≡ given s

  resolve_question-Keeps :
      (pb : Playbook P.Float) (id : String) (confirmed : Bool) (reason : String) (now : ℕ)
      (s : Session P.Float) (plan : InvestigationPlan P.Float)
      → Keeps s (resolve_question P pb id confirmed reason now s plan)
  unfolding resolve_question
  resolve_question-Keeps pb id confirmed reason now s plan =
      elim (Option-cases (resolve_named P id confirmed reason now plan.questions)) [
        | inl e ↦ rw (e, Keeps) tt
        | inr (found, e) ↦
            rw (e, Keeps)
              (given-effects P pb (found.1 ∷ []) s (record plan {
                questions = found.0;
                resolution_history = plan.resolution_history ++ found.1 ∷ [];
              }))
      ]

  record_answer-Sound :
      (id : String) (w : Moment P.Float) (input : ResolveQuestionInput) (s : Session P.Float)
      (r : Result String (Session P.Float × InvestigationPlan P.Float × QuestionResolution P.Float))
      → Sound id s
      → Keeps s r
      → Sound id (record_answer P R w input s r).0
  unfolding record_answer add_journal given
  record_answer-Sound id w input s (err message) h k = h
  record_answer-Sound id w input s (ok (moved, plan, res)) h k = Sound-given id s moved k h

  answer_on-Sound :
      (id : String) (w : Moment P.Float) (input : ResolveQuestionInput) (pb : Playbook P.Float)
      (s : Session P.Float) (plan : Option (InvestigationPlan P.Float))
      → Sound id s
      → Sound id (answer_on P R w input pb s plan).0
  unfolding answer_on
  answer_on-Sound id w input pb s none h = h
  answer_on-Sound id w input pb s (some plan) h =
      record_answer-Sound id w input s
        (resolve_question P pb input.question_id input.confirmed input.reason w.now s plan) h
        (resolve_question-Keeps pb input.question_id input.confirmed input.reason w.now s plan)

  answer_with-Sound :
      (id : String) (w : Moment P.Float) (input : ResolveQuestionInput) (s : Session P.Float)
      (pb : Option (Playbook P.Float))
      → Sound id s
      → Sound id (answer_with P R w input s pb).0
  unfolding answer_with
  answer_with-Sound id w input s none h = h
  answer_with-Sound id w input s (some pb) h = elim (Bool-cases (is_some s.plan)) [
    | inl e ↦ rw e (answer_on-Sound id w input pb s s.plan h)
    | inr e ↦ rw e (
        answer_on-Sound id w input pb (recompute P R w s) (recompute P R w s).plan
          (recompute-Sound id w s h))
  ]

  pub answer-Sound :
      (id : String) (w : Moment P.Float) (input : ResolveQuestionInput) (s : Session P.Float)
      → Sound id s
      → Sound id (answer P R w input s).0
  unfolding answer
  answer-Sound id w input s h = elim (Bool-cases (is_completed s.status)) [
    | inl e ↦ rw e h
    | inr e ↦ rw e (answer_with-Sound id w input s (R.playbook_for s.goal) h)
  ]

  archive-Sound :
      (id : String) (cal : Option (Calibration P.Float)) (now : ℕ) (s : Session P.Float)
      → Sound id s
      → Sound id (archive P R cal now s)
  unfolding archive add_journal
  archive-Sound id none now s h = h
  archive-Sound id (some cal) now s h = h

  conclude-Sound :
      (id : String) (now : ℕ) (s : Session P.Float) → Sound id s → Sound id (conclude P R now s)
  unfolding conclude add_journal add_history
  conclude-Sound id now s h = archive-Sound id _ now _ h

  pub close-Sound :
      (id : String) (w : Moment P.Float) (s : Session P.Float)
      → Sound id s
      → Sound id (close P R w s).0
  unfolding close
  close-Sound id w s h = elim (Bool-cases (is_completed (recompute P R w s).status)) [
    | inl e ↦ rw e (recompute-Sound id w s h)
    | inr e ↦ rw e (conclude-Sound id w.now (recompute P R w s) (recompute-Sound id w s h))
  ]

  pub submit-Sound :
      (id : String) (fresh : ℕ → String) (w : Moment P.Float) (items : List (Option Evidence))
      (m : Dict (Session P.Float))
      → AllEntries Sound m
      → AllEntries Sound (submit P R id fresh w items m).0
  unfolding submit
  submit-Sound id fresh w [] m h = h
  submit-Sound id fresh w (item ∷ items) m h =
      with_session-Sound id (submit_to P R fresh w (item ∷ items))
        (submit_to-Sound id fresh w (item ∷ items)) m h
