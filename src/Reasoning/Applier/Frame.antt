-- ===== src/Reasoning/Applier/Frame.antt =====
-- What the actions of reasoners cannot reach in a session.
use incident_investigator.Prelude.{
  ℕ, String, ◌≡◌, refl, ◌∙◌, arith, Option, List, [], ◌∷◌, inl, inr, Option-cases,
}
use incident_investigator.Model.Platform.{Platform}
use incident_investigator.Model.Evidence.{Evidence, Hypothesis}
use incident_investigator.Model.Investigation.{JournalEntry, ReasoningMetrics}
use incident_investigator.Model.Protocol.{Goal}
use incident_investigator.Model.Reasoning.{ReasoningAction, ActionType, ReasoningCycle}
use incident_investigator.Model.Session.{Session, TimeWindow, HistoryEntry}
use incident_investigator.Graph.Store.{MemoryStore}
use incident_investigator.Reasoning.Validator.{validate}
use incident_investigator.Reasoning.Changes.{
  adjust_confidence, set_hypothesis_status, append_hypothesis, append_contradiction, link_nodes,
  append_question, set_question_status, append_evidence_request, change_plan, store_plan, recommend,
}
use incident_investigator.Reasoning.Applier.{apply_as, apply_one}
use incident_investigator.Reasoning.Applier.Loop.{
  Batch, apply_next, apply_loop, apply, record_outcome,
}

-- The question under investigation, its evidence and its records.
pub record Frame (F : Type 0) : Type 0 where
  pub id : String
  pub question : String
  pub service : String
  pub time_window : TimeWindow
  pub goal : Goal
  pub evidence : List Evidence
  pub journal : List (JournalEntry F)
  pub history : List HistoryEntry
  pub metrics : ReasoningMetrics F
  pub reasoning_cycles : List (ReasoningCycle F)
  pub prev_hypotheses : List (Hypothesis F)
  pub created_at : ℕ
  pub updated_at : ℕ

module _ {F : Type 0} where
  unfoldable pub frame : Session F → Frame F
  frame s = record {
    id = s.id;
    question = s.question;
    service = s.service;
    time_window = s.time_window;
    goal = s.goal;
    evidence = s.evidence;
    journal = s.journal;
    history = s.history;
    metrics = s.metrics;
    reasoning_cycles = s.reasoning_cycles;
    prev_hypotheses = s.prev_hypotheses;
    created_at = s.created_at;
    updated_at = s.updated_at;
  }

module _ (P : Platform) where
  frame-apply_as :
      (t : ActionType) (s : Session P.Float) (g : Option (MemoryStore P.Float))
      (a : ReasoningAction P.Float)
      → frame (apply_as P t s g a).session ≡ frame s
  unfolding apply_as frame adjust_confidence set_hypothesis_status append_hypothesis
      append_contradiction link_nodes append_question set_question_status append_evidence_request
      change_plan store_plan recommend
  frame-apply_as t s g a = ground arith

  frame-apply_next :
      (b : Batch P.Float) (a : ReasoningAction P.Float)
      → frame (apply_next P b a).session ≡ frame b.session
  unfolding apply_next apply_one record_outcome
  frame-apply_next b a = elim (Option-cases (validate P b.session b.graph a)) [
    | inl e ↦ ground (arith, frame-apply_as a.type b.session b.graph a)
    | inr (m, e) ↦ ground arith
  ]

  frame-apply_loop :
      (actions : List (ReasoningAction P.Float)) (b : Batch P.Float)
      → frame (apply_loop P b actions).session ≡ frame b.session
  unfolding apply_loop
  frame-apply_loop [] b = refl
  frame-apply_loop (a ∷ actions) b =
      frame-apply_loop actions (apply_next P b a) ∙ frame-apply_next b a

  -- No list of actions, whatever it holds, changes the question under investigation, its evidence,
  -- its goal and time window, its journal, history and metrics, or the cycles recorded before.
  pub frame-apply :
      (s : Session P.Float) (g : Option (MemoryStore P.Float))
      (actions : List (ReasoningAction P.Float))
      → frame (apply P s g actions).session ≡ frame s
  unfolding apply
  frame-apply s g actions = frame-apply_loop actions _
