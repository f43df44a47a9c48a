-- ===== src/StateMachine/Order.antt =====
-- What Transition says of a session.
use incident_investigator.Prelude.{◌≡◌, arith, Bool, true, false, ◌||◌, length, ltb}
use incident_investigator.Model.Platform.{Platform}
use incident_investigator.Model.Session.{Session}
use incident_investigator.Model.Investigation.{InvestigationState}
use incident_investigator.StateMachine.{is_terminal, is_started, transition, outward}

-- The transient states, in which no session is left.
abbrev pub is_passing : InvestigationState → Bool
is_passing InvestigationState.reasoning = true
is_passing InvestigationState.started = true
is_passing _ = false

abbrev pub is_high_confidence : InvestigationState → Bool
is_high_confidence InvestigationState.high_confidence = true
is_high_confidence _ = false

abbrev pub is_waiting : InvestigationState → Bool
is_waiting InvestigationState.waiting_for_evidence = true
is_waiting _ = false

abbrev pub is_collecting : InvestigationState → Bool
is_collecting InvestigationState.collecting_evidence = true
is_collecting _ = false

module _ (P : Platform) (threshold : P.Float) where
  abbrev pub has_evidence : Session P.Float → Bool
  has_evidence s = ltb 0 (length s.evidence)

  abbrev pub is_confident : Session P.Float → Bool
  is_confident s = P.le threshold s.confidence

  -- The session has a question that blocks or evidence that is missing.
  abbrev pub has_need : Session P.Float → Bool
  has_need s = ltb 0 (length s.sufficiency.blocking_questions) || ltb 0 (length s.missing_evidence)

  -- What a state says of the session that is in it.
  pub record Placed (s : Session P.Float) (state : InvestigationState) : Type 0 where
    pub left_behind : is_passing state ≡ false
    pub confident :
        is_high_confidence state ≡ true → (has_evidence s ≡ true) × (is_confident s ≡ true)
    pub waits : is_waiting state ≡ true → (has_evidence s ≡ true) × (has_need s ≡ true)
    pub collects :
        is_collecting state ≡ true
        → has_evidence s ≡ true
        → (is_confident s ≡ false) × (has_need s ≡ false)
    pub answerable :
        is_terminal state ≡ false
        → has_evidence s ≡ true
        → s.sufficiency.can_answer ≡ true
        → is_confident s ≡ true
        → state ≡ InvestigationState.high_confidence
    pub needy :
        is_terminal state ≡ false
        → has_evidence s ≡ true
        → s.sufficiency.can_answer ≡ false
        → has_need s ≡ true
        → state ≡ InvestigationState.waiting_for_evidence

  pub transition-Placed :
      (current : InvestigationState) (s : Session P.Float)
      → is_started current ≡ false
      → (is_terminal current ≡ false → is_passing current ≡ true)
      → Placed s (transition P threshold current s s.sufficiency)
  unfolding transition outward
  transition-Placed current s begun running = record {
    left_behind = ground arith;
    confident = ground arith;
    waits = ground arith;
    collects = ground arith;
    answerable = ground arith;
    needy = ground arith;
  }
