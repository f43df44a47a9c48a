-- ===== src/Runtime/Isolation.antt =====
-- What the operations of the runtime do to sessions other than their own.
use incident_investigator.Prelude.{
  ◌≡◌, refl, ap, ◌∙◌, ℕ, String, false, Option, some, List, [], ◌∷◌, ◌==◌, Option-cases, inl, inr,
  if◌then◌else◌,
}
use incident_investigator.Prelude.Dict.{Dict, lookup, insert, lookup-insert}
use incident_investigator.Model.Platform.{Platform}
use incident_investigator.Model.Evidence.{Evidence}
use incident_investigator.Model.Session.{Session}
use incident_investigator.Runtime.Sessions.{
  Outcome, with_session, with_session_absent, with_session_present, save_session,
}
use incident_investigator.Runtime.Recompute.{Setup, Moment}
use incident_investigator.Runtime.Starting.{StartInput, start, new_session, goal_or_default}
use incident_investigator.Runtime.Submitting.{submit, submit_to}
use incident_investigator.Runtime.Operations.{
  get_session, refresh, answer_question, answer, finish, close,
}
use incident_investigator.Runtime.Frame.{Given, given, given-recompute}
use incident_investigator.Runtime.Soundness.{start-cases, opened_session}
use incident_investigator.Runtime.Reachable.{Step, started, submitted, fetched, answered, ended}

module _ {F : Type 0} where
  lookup_apart :
      (id other : String) (s : Session F) (m : Dict (Session F))
      → (id == other) ≡ false
      → lookup other (insert id s m) ≡ lookup other m
  lookup_apart id other s m e =
      lookup-insert id other s m ∙ ap (λ b. if b then some s else lookup other m) e

  pub lookup_apart-with_session :
      {A : Type 0} (id other : String) (f : Session F → Session F × Outcome A)
      (m : Dict (Session F))
      → (id == other) ≡ false
      → lookup other (with_session id f m).0 ≡ lookup other m
  lookup_apart-with_session {A} id other f m e = elim (Option-cases (lookup id m)) [
    | inl h ↦
        ap (λ (out : Dict (Session F) × Outcome A). lookup other out.0)
          (with_session_absent id f m h)
    | inr (s, h) ↦
        ap (λ (out : Dict (Session F) × Outcome A). lookup other out.0)
          (with_session_present id f m s h)
        ∙ lookup_apart id other (f s).0 m e
  ]

module _ (P : Platform) (R : Setup P) where
  -- The identifier of the session that an operation is about. Start draws a new one.
  abbrev pub subject : {m n : Dict (Session P.Float)} → Step P R m n → String
  subject (started id w input) = id
  subject (submitted id fresh w items) = id
  subject (fetched id w) = id
  subject (answered w input) = input.session_id
  subject (ended id w) = id

  pub id-opened_session :
      (id : String) (w : Moment P.Float) (input : StartInput)
      → (opened_session P R id w input).id ≡ id
  unfolding given new_session
  id-opened_session id w input =
      ap (λ (g : Given). g.id)
        (given-recompute P R w (new_session P id w.now input (goal_or_default input.goal)))

  start_apart :
      (id other : String) (w : Moment P.Float) (input : StartInput) (m : Dict (Session P.Float))
      → (id == other) ≡ false
      → lookup other (start P R id w input m).0 ≡ lookup other m
  unfolding save_session
  start_apart id other w input m e = elim (start-cases P R id w input m) [
    | inl h ↦ ap (lookup other) h
    | inr h ↦
        let s = opened_session P R id w input in
        ap (lookup other) h
        ∙ lookup_apart s.id other s m
            (ap (λ (i : String). i == other) (id-opened_session id w input) ∙ e)
  ]

  submit_apart :
      (id other : String) (fresh : ℕ → String) (w : Moment P.Float) (items : List (Option Evidence))
      (m : Dict (Session P.Float))
      → (id == other) ≡ false
      → lookup other (submit P R id fresh w items m).0 ≡ lookup other m
  unfolding submit
  submit_apart id other fresh w [] m e = refl
  submit_apart id other fresh w (item ∷ items) m e =
      lookup_apart-with_session id other (submit_to P R fresh w (item ∷ items)) m e

  -- An operation of the runtime, whether it succeeds or fails, leaves every session other than its
  -- own in the store as it was, and puts none there.
  pub lookup_other-Step :
      {m n : Dict (Session P.Float)} (step : Step P R m n) (other : String)
      → (subject step == other) ≡ false
      → lookup other n ≡ lookup other m
  unfolding get_session answer_question finish
  lookup_other-Step {m} (started id w input) other e = start_apart id other w input m e
  lookup_other-Step {m} (submitted id fresh w items) other e =
      submit_apart id other fresh w items m e
  lookup_other-Step {m} (fetched id w) other e =
      lookup_apart-with_session id other (refresh P R w) m e
  lookup_other-Step {m} (answered w input) other e =
      lookup_apart-with_session input.session_id other (answer P R w input) m e
  lookup_other-Step {m} (ended id w) other e = lookup_apart-with_session id other (close P R w) m e
