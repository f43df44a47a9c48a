-- ===== src/Reasoning/Applier/Accounts.antt =====
-- What becomes of each action of a batch.
use incident_investigator.Prelude.{
  String, false, ◌≡◌, refl, arith, Option, none, List, [], ◌∷◌, ◌++◌, inl, inr, Bool-cases,
  Option-cases,
}
use incident_investigator.Model.Platform.{Platform}
use incident_investigator.Model.Reasoning.{ReasoningAction, ActionType}
use incident_investigator.Model.Session.{Session}
use incident_investigator.Graph.Store.{MemoryStore}
use incident_investigator.Reasoning.Validator.{validate, validate_as, check_recommendation}
use incident_investigator.Reasoning.Changes.{
  adjust_confidence, set_hypothesis_status, append_hypothesis, append_contradiction, link_nodes,
  append_question, set_question_status, append_evidence_request, change_plan, store_plan, recommend,
}
use incident_investigator.Reasoning.Applier.{apply_as, apply_one}
use incident_investigator.Reasoning.Applier.Loop.{
  Batch, apply_next, apply_loop, apply, record_outcome,
}

module _ (P : Platform) where
  -- How a batch goes on by one action: it is applied, or it is rejected and has changed nothing.
  pub data Turn : ReasoningAction P.Float → Batch P.Float → Batch P.Float → Type 0 where
    accepted :
        (a : ReasoningAction P.Float) (b c : Batch P.Float)
        → validate P b.session b.graph a ≡ none
        → c.session ≡ (apply_one P b.session b.graph a).session
        → c.graph ≡ (apply_one P b.session b.graph a).graph
        → c.applied ≡ b.applied ++ a ∷ []
        → c.rejected ≡ b.rejected
        → Turn a b c
    refused :
        (a : ReasoningAction P.Float) (b c : Batch P.Float) (reason : String)
        → c.session ≡ b.session
        → c.graph ≡ b.graph
        → c.applied ≡ b.applied
        → c.rejected ≡ b.rejected ++ record { action = a; reason = reason } ∷ []
        → Turn a b c

  -- A list of actions taken one by one.
  pub data Turns : List (ReasoningAction P.Float) → Batch P.Float → Batch P.Float → Type 0 where
    finished : (b : Batch P.Float) → Turns [] b b
    next :
        {a : ReasoningAction P.Float} {actions : List (ReasoningAction P.Float)}
        {b c d : Batch P.Float}
        → Turn a b c
        → Turns actions c d
        → Turns (a ∷ actions) b d

  -- An action that the validator accepts and that has no effect leaves all as it is.
  idle-apply_as :
      (t : ActionType) (s : Session P.Float) (g : Option (MemoryStore P.Float))
      (a : ReasoningAction P.Float)
      → validate_as P t s g a ≡ none
      → (apply_as P t s g a).done ≡ false
      → ((apply_as P t s g a).session ≡ s) × ((apply_as P t s g a).graph ≡ g)
  unfolding validate_as apply_as adjust_confidence set_hypothesis_status append_hypothesis
      append_contradiction link_nodes append_question set_question_status append_evidence_request
      change_plan store_plan recommend check_recommendation
  idle-apply_as t s g a v d = ground arith

  idle :
      (b : Batch P.Float) (a : ReasoningAction P.Float)
      → validate P b.session b.graph a ≡ none
      → (apply_one P b.session b.graph a).done ≡ false
      → ((apply_one P b.session b.graph a).session ≡ b.session)
        × ((apply_one P b.session b.graph a).graph ≡ b.graph)
  unfolding validate apply_one
  idle b a v d = idle-apply_as a.type b.session b.graph a v d

  record_outcome-Turn :
      (b : Batch P.Float) (a : ReasoningAction P.Float)
      → validate P b.session b.graph a ≡ none
      → Turn a b (record_outcome b a (apply_one P b.session b.graph a))
  unfolding record_outcome
  record_outcome-Turn b a v = elim (Bool-cases (apply_one P b.session b.graph a).done) [
    | inl e ↦ accepted a b _ v (rw e refl) (rw e refl) (rw e refl) (rw e refl)
    | inr e ↦
        refused a b _ "action had no effect" (rw e (idle b a v e).0) (rw e (idle b a v e).1)
          (rw e refl) (rw e refl)
  ]

  apply_next-Turn : (b : Batch P.Float) (a : ReasoningAction P.Float) → Turn a b (apply_next P b a)
  unfolding apply_next
  apply_next-Turn b a = elim (Option-cases (validate P b.session b.graph a)) [
    | inl v ↦ rw (v, apply_next) (record_outcome-Turn b a v)
    | inr (reason, v) ↦ rw (v, apply_next) (refused a b _ reason refl refl refl refl)
  ]

  apply_loop-Turns :
      (actions : List (ReasoningAction P.Float)) (b : Batch P.Float)
      → Turns actions b (apply_loop P b actions)
  unfolding apply_loop
  apply_loop-Turns [] b = finished b
  apply_loop-Turns (a ∷ actions) b =
      next (apply_next-Turn b a) (apply_loop-Turns actions (apply_next P b a))

  abbrev pub opening : Session P.Float → Option (MemoryStore P.Float) → Batch P.Float
  opening s g = record { applied = []; rejected = []; session = s; graph = g }

  -- Apply takes the actions in their order. Each one is either applied, which needs that the
  -- validator accepts it in the state that the actions before it have left, and is then listed once
  -- among the applied; or it is listed once among the rejected, with a reason, and has changed
  -- neither the session nor the graph.
  pub apply-Turns :
      (s : Session P.Float) (g : Option (MemoryStore P.Float))
      (actions : List (ReasoningAction P.Float))
      → Turns actions (opening s g) (apply P s g actions)
  unfolding apply
  apply-Turns s g actions = apply_loop-Turns actions _
