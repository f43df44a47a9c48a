-- ===== src/Protocol/Effects.antt =====
-- How resolutions move the hypotheses: applyPlaybookEffects and normalizeHypothesisConfidences of
-- internal/engine/protocol/engine.go.
use incident_investigator.Prelude.{
  ◌==◌, ◌||◌, ◌&&◌, not, Bool, none, some, List, [], ◌∷◌, map, if◌then◌else◌,
}
use incident_investigator.Model.Platform.{Platform, clamp, round1, sum}
use incident_investigator.Model.Evidence.{Hypothesis}
use incident_investigator.Model.Protocol.{
  QuestionResolution, InvestigationPlan, Stage, is_confirmed_resolution, is_rejected_resolution,
}
use incident_investigator.Model.Session.{Session}
use incident_investigator.Protocol.Playbook.{
  Playbook, PlaybookEffect, find_playbook_question, effect_decrease,
}

module _ (P : Platform) where
  open P use {Float, of_ℕ, neg, plus, times, over, lt, le}

  -- An effect on one hypothesis.
  unfoldable pub shift_hypothesis : PlaybookEffect Float → Hypothesis Float → Hypothesis Float
  shift_hypothesis eff h =
      let delta = if eff.action == effect_decrease then neg eff.amount else eff.amount in
      if not (h.id == eff.hypothesis_id)
      then h
      else record h { confidence = clamp P (plus h.confidence delta) (of_ℕ 0) (of_ℕ 100) }

  abbrev pub is_applied : QuestionResolution Float → PlaybookEffect Float → Bool
  is_applied res eff =
      (eff.when_true && is_confirmed_resolution res.status)
      || (not eff.when_true && is_rejected_resolution res.status)

  unfoldable pub apply_effects :
      QuestionResolution Float
      → List (PlaybookEffect Float)
      → List (Hypothesis Float)
      → List (Hypothesis Float)
  apply_effects res [] hs = hs
  apply_effects res (eff ∷ effs) hs =
      apply_effects res effs (if is_applied res eff then map (shift_hypothesis eff) hs else hs)

  unfoldable pub apply_resolutions :
      Playbook Float
      → List (QuestionResolution Float)
      → List (Hypothesis Float)
      → List (Hypothesis Float)
  apply_resolutions pb [] hs = hs
  apply_resolutions pb (res ∷ rs) hs =
      apply_resolutions pb rs (elim (find_playbook_question pb res.question_id) [
        | none ↦ hs
        | some pq ↦ apply_effects res pq.effects hs
      ])

  -- normalizeHypothesisConfidences
  unfoldable pub floor_confidence : Hypothesis Float → Hypothesis Float
  floor_confidence h = record h {
    confidence = if lt h.confidence (of_ℕ 0) then of_ℕ 0 else h.confidence;
  }

  unfoldable pub normalize_confidences : List (Hypothesis Float) → List (Hypothesis Float)
  normalize_confidences hs =
      let floored = map floor_confidence hs in
      let total = sum P (map (λ (h : Hypothesis Float). h.confidence) floored) in
      if le total (of_ℕ 0)
      then floored
      else map
          (λ (h : Hypothesis Float). record h {
            confidence = round1 P (times (over h.confidence total) (of_ℕ 100));
          })
          floored

  -- applyPlaybookEffects
  unfoldable pub apply_playbook_effects :
      Playbook Float
      → List (QuestionResolution Float)
      → Session Float
      → InvestigationPlan Float
      → Session Float × InvestigationPlan Float
  apply_playbook_effects pb resolutions s plan = elim s.hypotheses [
    | [] ↦ (s, plan)
    | h ∷ hs ↦ (
      record s { hypotheses = normalize_confidences (apply_resolutions pb resolutions (h ∷ hs)) },
      record plan { current_stage = Stage.hypothesis_evaluation },
    )
  ]
