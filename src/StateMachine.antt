-- ===== src/StateMachine.antt =====
-- internal/engine/state_machine.go: the states of an investigation.
pub mod Order
use incident_investigator.Prelude.{
  ℕ, ltb, Bool, true, false, not, ◌&&◌, ◌||◌, List, [], ◌∷◌, length, if◌then◌else◌,
}
use incident_investigator.Model.Platform.{Platform}
use incident_investigator.Model.Session.{Session}
use incident_investigator.Model.Investigation.{SufficiencyReport, InvestigationState}

-- The states that Transition and BeginReasoning leave as they are.
abbrev pub is_terminal : InvestigationState → Bool
is_terminal InvestigationState.completed = true
is_terminal InvestigationState.failed = true
is_terminal _ = false

abbrev pub is_started : InvestigationState → Bool
is_started InvestigationState.started = true
is_started _ = false

-- BeginReasoning
unfoldable pub begin_reasoning : InvestigationState → InvestigationState
begin_reasoning current = if is_terminal current then current else InvestigationState.reasoning

module _ (P : Platform) where
  open P use {Float, le}

  -- The tests of Transition behind the terminal states, on a session with evidence.
  unfoldable pub outward : Float → Session Float → SufficiencyReport Float → InvestigationState
  outward threshold s sufficiency =
      if sufficiency.can_answer && le threshold s.confidence
      then InvestigationState.high_confidence
      else if ltb 0 (length sufficiency.blocking_questions) || ltb 0 (length s.missing_evidence)
      then InvestigationState.waiting_for_evidence
      else if le threshold s.confidence
      then InvestigationState.high_confidence
      else InvestigationState.collecting_evidence

  -- Transition. `threshold` is the field HighConfidenceThreshold.
  unfoldable pub transition :
      Float → InvestigationState → Session Float → SufficiencyReport Float → InvestigationState
  unfolding outward
  transition threshold current s sufficiency =
      if is_terminal current then current else elim s.evidence [
        | [] ↦
            if is_started current
            then InvestigationState.started
            else InvestigationState.collecting_evidence
        | e ∷ es ↦ outward threshold s sufficiency
      ]

  -- NewStateMachine's threshold is 70.
  abbrev pub default_threshold : Float
  default_threshold = P.of_ℕ 70
