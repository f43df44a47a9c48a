-- ===== src/Reasoning/Applier/Loop.antt =====
-- The loop of Apply in internal/reasoning/applier.go.
use incident_investigator.Prelude.{String, Option, none, some, List, [], ◌∷◌, ◌++◌, if◌then◌else◌}
use incident_investigator.Model.Platform.{Platform}
use incident_investigator.Model.Reasoning.{ReasoningAction, RejectedAction}
use incident_investigator.Model.Session.{Session}
use incident_investigator.Graph.Store.{MemoryStore}
use incident_investigator.Reasoning.Validator.{validate}
use incident_investigator.Reasoning.Changes.{Applied}
use incident_investigator.Reasoning.Applier.{apply_one}

-- ApplyResult, with the session and the graph as the loop leaves them.
pub record Batch (F : Type 0) : Type 0 where
  pub applied : List (ReasoningAction F)
  pub rejected : List (RejectedAction F)
  pub session : Session F
  pub graph : Option (MemoryStore F)

module _ {F : Type 0} where
  abbrev pub refuse : Batch F → ReasoningAction F → String → Batch F
  refuse b a reason = record b {
    rejected = b.rejected ++ record { action = a; reason = reason } ∷ [];
  }

  -- What the loop does with the result of applyOne.
  unfoldable pub record_outcome : Batch F → ReasoningAction F → Applied F → Batch F
  record_outcome b a r =
      let after : Batch F = record b { session = r.session; graph = r.graph } in
      if r.done
      then record after { applied = b.applied ++ a ∷ [] }
      else refuse after a "action had no effect"

module _ (P : Platform) where
  open P use {Float}

  -- One turn of the loop.
  unfoldable pub apply_next : Batch Float → ReasoningAction Float → Batch Float
  unfolding validate apply_one record_outcome
  apply_next b a = elim (validate P b.session b.graph a) [
    | none ↦ record_outcome b a (apply_one P b.session b.graph a)
    | some reason ↦ refuse b a reason
  ]

  unfoldable pub apply_loop : Batch Float → List (ReasoningAction Float) → Batch Float
  unfolding apply_next
  apply_loop b [] = b
  apply_loop b (a ∷ actions) = apply_loop (apply_next b a) actions

  -- Apply
  unfoldable pub apply :
      Session Float → Option (MemoryStore Float) → List (ReasoningAction Float) → Batch Float
  unfolding apply_loop
  apply s g actions =
      apply_loop (record { applied = []; rejected = []; session = s; graph = g }) actions
