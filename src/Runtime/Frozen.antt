-- ===== src/Runtime/Frozen.antt =====
-- What the operations of the runtime can still do to a session that is completed.
use incident_investigator.Prelude.{
  ◌≡◌, refl, ap, ◌∙◌, ℕ, String, Bool, true, false, Option, some, List, [], ◌∷◌, ◌==◌, eq_iff,
  eq_self, subst, sym, Bool-cases, inl, inr, if◌then◌else◌,
}
use incident_investigator.Prelude.Dict.{Dict, lookup, insert, lookup-insert}
use incident_investigator.Model.Platform.{Platform}
use incident_investigator.Model.Evidence.{Evidence}
use incident_investigator.Model.Session.{Session, is_completed}
use incident_investigator.Runtime.Sessions.{Outcome, with_session, with_session_present}
use incident_investigator.Runtime.Recompute.{Setup, Moment, recompute}
use incident_investigator.Runtime.Frame.{given, given-recompute}
use incident_investigator.Runtime.Ending.{ending}
use incident_investigator.Runtime.Lifecycle.{is_over, recompute_stays_completed}
use incident_investigator.Runtime.Submitting.{submit, submit_to}
use incident_investigator.Runtime.Operations.{
  ResolveQuestionInput, get_session, refresh, answer_question, answer, finish, close,
}
use incident_investigator.Runtime.Reachable.{Step, started, submitted, fetched, answered, ended}
use incident_investigator.Runtime.Isolation.{lookup_other-Step, lookup_apart-with_session}

module _ (P : Platform) where
  -- A completed session that has what the client gave to the first.
  abbrev pub Frozen : Session P.Float → Session P.Float → Type 0
  Frozen s t = (is_completed t.status ≡ true) × (given t ≡ given s)

  -- Such a session is what the store has under the identifier.
  abbrev pub Keeps : String → Session P.Float → Dict (Session P.Float) → Type 0
  Keeps id s m = (t : Session P.Float) × (lookup id m ≡ some t) × Frozen s t

  insert-Keeps :
      (id : String) (s t : Session P.Float) (m : Dict (Session P.Float))
      → Frozen s t
      → Keeps id s (insert id t m)
  insert-Keeps id s t m f =
      (t, lookup-insert id id t m ∙ ap (λ b. if b then some t else lookup id m) (eq_self id), f)

  with_session-Keeps :
      {A : Type 0} (at id : String) (f : Session P.Float → Session P.Float × Outcome A)
      (s : Session P.Float) (m : Dict (Session P.Float))
      → ((t : Session P.Float) → is_completed t.status ≡ true → Frozen t (f t).0)
      → Keeps id s m
      → Keeps id s (with_session at f m).0
  with_session-Keeps {A} at id f s m keeps (t, found, same) = elim (Bool-cases (at == id)) [
    | inl hit ↦
        let kept = keeps t same.0 in
        subst (λ k. Keeps id s (with_session k f m).0) (sym ((eq_iff at id).0 hit))
          (subst (λ (out : Dict (Session P.Float) × Outcome A). Keeps id s out.0)
            (sym (with_session_present id f m t found))
            (insert-Keeps id s (f t).0 m (kept.0, kept.1 ∙ same.1)))
    | inr miss ↦ (t, lookup_apart-with_session at id f m miss ∙ found, same)
  ]

module _ (P : Platform) (R : Setup P) where
  recompute-Frozen :
      (w : Moment P.Float) (t : Session P.Float)
      → is_completed t.status ≡ true
      → Frozen P t (recompute P R w t)
  unfolding is_over ending
  recompute-Frozen w t over =
      (recompute_stays_completed P R w t (rw over refl), given-recompute P R w t)

  close-Frozen :
      (w : Moment P.Float) (t : Session P.Float)
      → is_completed t.status ≡ true
      → Frozen P t (close P R w t).0
  unfolding close
  close-Frozen w t over = let kept = recompute-Frozen w t over in rw kept.0 kept

  submit_to-Frozen :
      (fresh : ℕ → String) (w : Moment P.Float) (items : List (Option Evidence))
      (t : Session P.Float)
      → is_completed t.status ≡ true
      → Frozen P t (submit_to P R fresh w items t).0
  unfolding submit_to
  submit_to-Frozen fresh w items t over = rw over (over, refl)

  answer-Frozen :
      (w : Moment P.Float) (input : ResolveQuestionInput) (t : Session P.Float)
      → is_completed t.status ≡ true
      → Frozen P t (answer P R w input t).0
  unfolding answer
  answer-Frozen w input t over = rw over (over, refl)

  -- The operation is a Start that is given this identifier.
  abbrev pub opens : String → {m n : Dict (Session P.Float)} → Step P R m n → Bool
  opens id (started at w input) = at == id
  opens id (submitted at fresh w items) = false
  opens id (fetched at w) = false
  opens id (answered w input) = false
  opens id (ended at w) = false

  -- The stores that operations lead to, none of them a Start that is given the identifier.
  pub data Later (id : String) (m : Dict (Session P.Float)) : Dict (Session P.Float) → Type 0 where
    now : Later id m m
    then_step :
        {n o : Dict (Session P.Float)}
        → Later id m n
        → (step : Step P R n o) → opens id step ≡ false
        → Later id m o

  Step-Keeps :
      {m n : Dict (Session P.Float)} (id : String) (s : Session P.Float) (step : Step P R m n)
      → opens id step ≡ false
      → Keeps P id s m
      → Keeps P id s n
  unfolding submit get_session refresh answer_question finish
  Step-Keeps id s (started at w input) e (t, found, f) =
      (t, lookup_other-Step P R (started at w input) id e ∙ found, f)
  Step-Keeps {m} id s (submitted at fresh w []) e h = h
  Step-Keeps {m} id s (submitted at fresh w (item ∷ items)) e h =
      with_session-Keeps P at id (submit_to P R fresh w (item ∷ items)) s m
        (submit_to-Frozen fresh w (item ∷ items)) h
  Step-Keeps {m} id s (fetched at w) e h =
      with_session-Keeps P at id (refresh P R w) s m (recompute-Frozen w) h
  Step-Keeps {m} id s (answered w input) e h =
      with_session-Keeps P input.session_id id (answer P R w input) s m (answer-Frozen w input) h
  Step-Keeps {m} id s (ended at w) e h =
      with_session-Keeps P at id (close P R w) s m (close-Frozen w) h

  -- Once a session is stored with the status Completed, whatever operations follow, on it or on
  -- others, except a Start that is given its identifier, it stays stored with that status, and what
  -- the client has given, its evidence, its history and its times stay as they were.
  pub Later-Keeps :
      {m : Dict (Session P.Float)} (id : String) (s : Session P.Float)
      → lookup id m ≡ some s
      → is_completed s.status ≡ true
      → {n : Dict (Session P.Float)} → Later id m n
      → Keeps P id s n
  Later-Keeps id s found over now = (s, found, (over, refl))
  Later-Keeps id s found over (then_step before step e) =
      Step-Keeps id s step e (Later-Keeps id s found over before)
