-- ===== src/Runtime/Replies.antt =====
-- What the operations of the runtime return, against what they leave in the store.
use incident_investigator.Prelude.{
  ◌≡◌, refl, ap, ◌∙◌, sym, ℕ, String, Bool, true, false, Option, none, some, is_some, List, [], ◌∷◌,
  ◌==◌, not, length, eq_self, ok, err, Result, if◌then◌else◌,
}
use incident_investigator.Prelude.Dict.{Dict, lookup, insert, lookup-insert}
use incident_investigator.Model.Platform.{Platform}
use incident_investigator.Model.Evidence.{Evidence}
use incident_investigator.Model.Protocol.{QuestionResolution, InvestigationPlan}
use incident_investigator.Model.Session.{Session, is_completed}
use incident_investigator.Protocol.Playbook.{Playbook}
use incident_investigator.Runtime.Sessions.{
  RuntimeError, Outcome, with_session, run_on, save_session,
}
use incident_investigator.Runtime.Recompute.{Setup, Moment, recompute}
use incident_investigator.Runtime.Starting.{
  StartInput, start, goal_or_default, is_bad_window, is_valid_goal,
}
use incident_investigator.Runtime.Submitting.{submit, submit_to, after_ingest, ingest, evidence_ids}
use incident_investigator.Runtime.Operations.{
  ResolveQuestionInput, get_session, refresh, answer_question, answer, answer_with, answer_on,
  record_answer, finish, close,
}
use incident_investigator.Runtime.Soundness.{opened_session}
use incident_investigator.Runtime.Isolation.{id-opened_session}

module _ {F : Type 0} where
  -- The session in what Start, Submit, Get and Finish return.
  abbrev pub itself : Session F → Session F
  itself s = s

  -- The session in what ResolveQuestion returns.
  abbrev pub updated : QuestionResolution F × Session F → Session F
  updated (res, s) = s

module _ {F A : Type 0} (shown : A → Session F) where
  -- An operation that succeeds shows the session that is stored. One that fails neither adds nor
  -- removes its session.
  abbrev pub Reported : String → Dict (Session F) → Dict (Session F) × Outcome A → Type 0
  Reported id m (n, ok a) = lookup id n ≡ some (shown a)
  Reported id m (n, err e) = is_some (lookup id n) ≡ is_some (lookup id m)

  -- The same of a function that is passed to WithSession.
  abbrev Echoed : Session F × Outcome A → Type 0
  Echoed (s, ok a) = s ≡ shown a
  Echoed (s, err e) = s ≡ s

  lookup_same :
      (id : String) (s : Session F) (m : Dict (Session F)) → lookup id (insert id s m) ≡ some s
  lookup_same id s m =
      lookup-insert id id s m ∙ ap (λ b. if b then some s else lookup id m) (eq_self id)

  insert-Reported :
      (id : String) (m : Dict (Session F)) (s : Session F) (out : Session F × Outcome A)
      → lookup id m ≡ some s
      → Echoed out
      → Reported id m (insert id out.0 m, out.1)
  insert-Reported id m s (t, ok a) e h = lookup_same id t m ∙ ap some h
  insert-Reported id m s (t, err x) e h = ap is_some (lookup_same id t m) ∙ sym (ap is_some e)

  run_on-Reported :
      (id : String) (f : Session F → Session F × Outcome A) (m : Dict (Session F))
      (found : Option (Session F))
      → lookup id m ≡ found
      → ((s : Session F) → Echoed (f s))
      → Reported id m (run_on id f m found)
  unfolding run_on
  run_on-Reported id f m none e h = refl
  run_on-Reported id f m (some s) e h = insert-Reported id m s (f s) e (h s)

  with_session-Reported :
      (id : String) (f : Session F → Session F × Outcome A) (m : Dict (Session F))
      → ((s : Session F) → Echoed (f s))
      → Reported id m (with_session id f m)
  unfolding with_session
  with_session-Reported id f m h = run_on-Reported id f m (lookup id m) refl h

  either-Echoed :
      (b : Bool) (x y : Session F × Outcome A) → Echoed x → Echoed y → Echoed (if b then x else y)
  either-Echoed true x y h k = h
  either-Echoed false x y h k = k

  either-Reported :
      (id : String) (m : Dict (Session F)) (b : Bool) (x y : Dict (Session F) × Outcome A)
      → Reported id m x
      → Reported id m y
      → Reported id m (if b then x else y)
  either-Reported id m true x y h k = h
  either-Reported id m false x y h k = k

module _ (P : Platform) (R : Setup P) where
  after_ingest-Echoed :
      (w : Moment P.Float) (count : ℕ) (s : Session P.Float)
      (out : List Evidence × Option RuntimeError)
      → Echoed itself (after_ingest P R w count s out)
  unfolding after_ingest
  after_ingest-Echoed w count s (stored, some error) = refl
  after_ingest-Echoed w count s (stored, none) = refl

  submit_to-Echoed :
      (fresh : ℕ → String) (w : Moment P.Float) (items : List (Option Evidence))
      (s : Session P.Float)
      → Echoed itself (submit_to P R fresh w items s)
  unfolding submit_to
  submit_to-Echoed fresh w items s = either-Echoed itself (is_completed s.status) _ _ refl (
      after_ingest-Echoed w (length items) s
        (ingest P fresh w.now 0 (evidence_ids s) s.evidence items))

  record_answer-Echoed :
      (w : Moment P.Float) (input : ResolveQuestionInput) (s : Session P.Float)
      (r : Result String (Session P.Float × InvestigationPlan P.Float × QuestionResolution P.Float))
      → Echoed updated (record_answer P R w input s r)
  unfolding record_answer
  record_answer-Echoed w input s (err message) = refl
  record_answer-Echoed w input s (ok (moved, plan, res)) = refl

  answer_on-Echoed :
      (w : Moment P.Float) (input : ResolveQuestionInput) (pb : Playbook P.Float)
      (s : Session P.Float) (plan : Option (InvestigationPlan P.Float))
      → Echoed updated (answer_on P R w input pb s plan)
  unfolding answer_on
  answer_on-Echoed w input pb s none = refl
  answer_on-Echoed w input pb s (some plan) = record_answer-Echoed w input s _

  answer_with-Echoed :
      (w : Moment P.Float) (input : ResolveQuestionInput) (s : Session P.Float)
      (pb : Option (Playbook P.Float))
      → Echoed updated (answer_with P R w input s pb)
  unfolding answer_with
  answer_with-Echoed w input s none = refl
  answer_with-Echoed w input s (some pb) =
      let planned = if is_some s.plan then s else recompute P R w s in
      answer_on-Echoed w input pb planned planned.plan

  answer-Echoed :
      (w : Moment P.Float) (input : ResolveQuestionInput) (s : Session P.Float)
      → Echoed updated (answer P R w input s)
  unfolding answer
  answer-Echoed w input s =
      either-Echoed updated (is_completed s.status) _ _ refl
        (answer_with-Echoed w input s (R.playbook_for s.goal))

  start-Reported :
      (id : String) (w : Moment P.Float) (input : StartInput) (m : Dict (Session P.Float))
      → Reported itself id m (start P R id w input m)
  unfolding start save_session
  start-Reported id w input m =
      let s = opened_session P R id w input in
      either-Reported itself id m (P.trim_space input.question == "") _ _ refl (
        either-Reported itself id m (is_bad_window input.time_window) _ _ refl (
          either-Reported itself id m (not (is_valid_goal (goal_or_default input.goal))) _ _ refl (
            ap (λ (i : String). lookup id (insert i s m)) (id-opened_session P R id w input)
            ∙ lookup_same itself id s m)))

  submit-Reported :
      (id : String) (fresh : ℕ → String) (w : Moment P.Float) (items : List (Option Evidence))
      (m : Dict (Session P.Float))
      → Reported itself id m (submit P R id fresh w items m)
  unfolding submit
  submit-Reported id fresh w [] m = refl
  submit-Reported id fresh w (item ∷ items) m =
      with_session-Reported itself id (submit_to P R fresh w (item ∷ items)) m
        (submit_to-Echoed fresh w (item ∷ items))

  -- Where Start, Submit, Get, ResolveQuestion or Finish succeeds, the session that it returns is the
  -- one that is stored under the identifier. Where it fails, a session is stored under the identifier
  -- exactly if one was before.
  pub replies-Reported :
      (id : String) (fresh : ℕ → String) (w : Moment P.Float) (opening : StartInput)
      (items : List (Option Evidence)) (input : ResolveQuestionInput) (m : Dict (Session P.Float))
      → Reported itself id m (start P R id w opening m)
        × Reported itself id m (submit P R id fresh w items m)
        × Reported itself id m (get_session P R id w m)
        × Reported updated input.session_id m (answer_question P R w input m)
        × Reported itself id m (finish P R id w m)
  unfolding get_session refresh answer_question finish close
  replies-Reported id fresh w opening items input m = (
    start-Reported id w opening m,
    submit-Reported id fresh w items m,
    with_session-Reported itself id (refresh P R w) m (λ s. refl),
    with_session-Reported updated input.session_id (answer P R w input) m (answer-Echoed w input),
    with_session-Reported itself id (close P R w) m (λ s. refl),
  )
