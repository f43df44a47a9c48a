-- ===== src/Runtime/Completion.antt =====
-- The operations of the runtime on a session that is completed, or that ends.
use incident_investigator.Prelude.{
  ◌≡◌, refl, ap, ◌∙◌, ℕ, String, Bool, true, false, Option, none, some, ok, eq_self, if◌then◌else◌,
}
use incident_investigator.Prelude.Dict.{Dict, lookup, insert, lookup-insert}
use incident_investigator.Model.Platform.{Platform}
use incident_investigator.Model.Investigation.{InvestigationState}
use incident_investigator.Model.Session.{Session, Status, is_completed, add_history, add_journal}
use incident_investigator.Runtime.Sessions.{Outcome, with_session_present}
use incident_investigator.Runtime.Recompute.{Setup, Moment, Calibration, recompute}
use incident_investigator.Runtime.Operations.{finish, close, conclude, archive}

module _ (P : Platform) (R : Setup P) where
  completed-archive :
      (cal : Option (Calibration P.Float)) (now : ℕ) (s : Session P.Float)
      → is_completed s.status ≡ true
      → is_completed (archive P R cal now s).status ≡ true
  unfolding archive add_journal
  completed-archive none now s h = h
  completed-archive (some cal) now s h = h

  completed-conclude :
      (now : ℕ) (s : Session P.Float) → is_completed (conclude P R now s).status ≡ true
  unfolding conclude add_journal add_history
  completed-conclude now s =
      let ended : Session P.Float = record s {
        status = Status.completed;
        state = InvestigationState.completed;
        updated_at = now;
      } in
      completed-archive (R.calibrate true ended) now ended refl

  either_completed :
      (b : Bool) (s t : Session P.Float)
      → is_completed s.status ≡ b
      → is_completed t.status ≡ true
      → is_completed (if b then s else t).status ≡ true
  either_completed true s t h k = h
  either_completed false s t h k = k

  completed-close :
      (w : Moment P.Float) (s : Session P.Float) → is_completed (close P R w s).0.status ≡ true
  unfolding close
  completed-close w s =
      either_completed (is_completed (recompute P R w s).status) (recompute P R w s)
        (conclude P R w.now (recompute P R w s)) refl (completed-conclude w.now (recompute P R w s))

  returned-close :
      (w : Moment P.Float) (s : Session P.Float) → (close P R w s).1 ≡ ok (close P R w s).0
  unfolding close
  returned-close w s = refl

  -- Finish on a session that is stored always succeeds: it returns the session that it leaves in the
  -- store, and that session has the status Completed.
  pub finish_completes :
      (id : String) (w : Moment P.Float) (m : Dict (Session P.Float)) (s : Session P.Float)
      → lookup id m ≡ some s
      → (t : Session P.Float) × (finish P R id w m ≡ (insert id t m, ok t))
        × (lookup id (insert id t m) ≡ some t)
        × (is_completed t.status ≡ true)
  unfolding finish
  finish_completes id w m s e = (
    (close P R w s).0,
    with_session_present id (close P R w) m s e
        ∙ ap (λ (r : Outcome (Session P.Float)). (insert id (close P R w s).0 m, r))
            (returned-close w s),
    lookup-insert id id (close P R w s).0 m
        ∙ ap (λ b. if b then some (close P R w s).0 else lookup id m) (eq_self id),
    completed-close w s,
  )
