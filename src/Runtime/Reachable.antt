-- ===== src/Runtime/Reachable.antt =====
-- The stores of sessions that the operations of the runtime lead to.
use incident_investigator.Prelude.{ℕ, String, Option, List, []}
use incident_investigator.Prelude.Dict.{Dict, AllEntries}
use incident_investigator.Model.Platform.{Platform}
use incident_investigator.Model.Evidence.{Evidence}
use incident_investigator.Model.Session.{Session}
use incident_investigator.Runtime.Recompute.{Setup, Moment}
use incident_investigator.Runtime.Starting.{StartInput, start}
use incident_investigator.Runtime.Submitting.{submit}
use incident_investigator.Runtime.Operations.{
  ResolveQuestionInput, get_session, refresh, answer_question, answer, finish, close,
}
use incident_investigator.Runtime.Soundness.{
  Sound, with_session-Sound, recompute-Sound, start-Sound, submit-Sound, answer-Sound, close-Sound,
}

module _ (P : Platform) (R : Setup P) where
  -- One operation of the runtime, whether it succeeds or fails.
  pub data Step (m : Dict (Session P.Float)) : Dict (Session P.Float) → Type 0 where
    started :
        (id : String) (w : Moment P.Float) (input : StartInput) → Step m (start P R id w input m).0
    submitted :
        (id : String) (fresh : ℕ → String) (w : Moment P.Float) (items : List (Option Evidence))
        → Step m (submit P R id fresh w items m).0
    fetched : (id : String) (w : Moment P.Float) → Step m (get_session P R id w m).0
    answered :
        (w : Moment P.Float) (input : ResolveQuestionInput)
        → Step m (answer_question P R w input m).0
    ended : (id : String) (w : Moment P.Float) → Step m (finish P R id w m).0

  -- The stores that a sequence of operations leads to from the empty one.
  pub data Reachable : Dict (Session P.Float) → Type 0 where
    initial : Reachable []
    after : {m n : Dict (Session P.Float)} → Reachable m → Step m n → Reachable n

  Step-Sound :
      {m n : Dict (Session P.Float)}
      → Step m n
      → AllEntries (Sound P R) m
      → AllEntries (Sound P R) n
  unfolding get_session refresh answer_question finish
  Step-Sound {m} (started id w input) h = start-Sound P R id w input m h
  Step-Sound {m} (submitted id fresh w items) h = submit-Sound P R id fresh w items m h
  Step-Sound {m} (fetched id w) h =
      with_session-Sound P R id (refresh P R w) (recompute-Sound P R id w) m h
  Step-Sound {m} (answered w input) h =
      with_session-Sound P R input.session_id (answer P R w input)
        (answer-Sound P R input.session_id w input) m h
  Step-Sound {m} (ended id w) h = with_session-Sound P R id (close P R w) (close-Sound P R id w) m h

  -- In every store of sessions that operations lead to from the empty one, whether they succeed or
  -- fail, each session is stored under its own identifier, no two pieces of its evidence share an
  -- identifier, and each piece has a known category, a summary that is not blank and a source.
  pub Reachable-Sound : {m : Dict (Session P.Float)} → Reachable m → AllEntries (Sound P R) m
  Reachable-Sound initial = tt
  Reachable-Sound (after r step) = Step-Sound step (Reachable-Sound r)
