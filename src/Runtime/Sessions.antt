-- ===== src/Runtime/Sessions.antt =====
-- internal/runtime/store.go: the store of sessions. Its mutex makes each method one step. A session
-- is a pointer that a function passed to WithSession writes through, so that what the function has
-- written stays in the store when it returns an error.
use incident_investigator.Prelude.{◌≡◌, ap, String, Result, ok, err, Option, none, some}
use incident_investigator.Prelude.Dict.{Dict, lookup, insert}
use incident_investigator.Model.Protocol.{Goal}
use incident_investigator.Model.Session.{Session}

-- The errors of the runtime, and those of Start and ResolveQuestion that have no name in Go.
pub data RuntimeError : Type 0 where
  session_not_found session_completed empty_evidence invalid_evidence : RuntimeError
  invalid_time_window question_required no_playbook missing_plan : RuntimeError
  duplicate_evidence_id : String → RuntimeError
  invalid_goal : Goal → RuntimeError
  protocol_error : String → RuntimeError

-- What a function passed to WithSession returns besides the session that it leaves.
abbrev pub Outcome : Type 0 → Type 0
Outcome A = Result RuntimeError A

module _ {F : Type 0} where
  -- Create and Save
  unfoldable pub save_session : Session F → Dict (Session F) → Dict (Session F)
  save_session s m = insert s.id s m

  -- Get
  unfoldable pub find_session : String → Dict (Session F) → Outcome (Session F)
  find_session id m = elim (lookup id m) [ none ↦ err session_not_found | some s ↦ ok s ]

  -- WithSession: the sessions afterwards, and what it returns.
  unfoldable pub run_on :
      {A : Type 0}
      → String
      → (Session F → Session F × Outcome A)
      → Dict (Session F)
      → Option (Session F)
      → Dict (Session F) × Outcome A
  run_on id f m none = (m, err session_not_found)
  run_on id f m (some s) = let out = f s in (insert id out.0 m, out.1)

  unfoldable pub with_session :
      {A : Type 0}
      → String
      → (Session F → Session F × Outcome A)
      → Dict (Session F)
      → Dict (Session F) × Outcome A
  unfolding run_on
  with_session id f m = run_on id f m (lookup id m)

module _ {F A : Type 0} (id : String) (f : Session F → Session F × Outcome A)
    (m : Dict (Session F)) where
  pub with_session_absent : lookup id m ≡ none → with_session id f m ≡ (m, err session_not_found)
  unfolding with_session run_on
  with_session_absent e = ap (run_on id f m) e

  pub with_session_present :
      (s : Session F) → lookup id m ≡ some s → with_session id f m ≡ (insert id (f s).0 m, (f s).1)
  unfolding with_session run_on
  with_session_present s e = ap (run_on id f m) e
