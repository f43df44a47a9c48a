-- ===== src/Engine/Scoring.antt =====
-- internal/engine/confidence.go, and ComputeConfidenceBreakdown of progress_v2.go, which repeats it.
use incident_investigator.Prelude.{
  ℕ, String, ◌&&◌, ◌||◌, none, some, List, [], ◌∷◌, ◌++◌, ◌==◌, length, contains, is_some,
  if◌then◌else◌,
}
use incident_investigator.Prelude.Dict.{Dict, lookup, insert}
use incident_investigator.Model.Platform.{Platform, clamp, round1, percent}
use incident_investigator.Model.Evidence.{Category, Evidence, Hypothesis, Contradiction}
use incident_investigator.Model.Investigation.{ConfidenceBreakdown}
use incident_investigator.Model.Session.{Session}
use incident_investigator.Model.Signals.{Signals}

-- idToCat: the last evidence with an id.
unfoldable pub category_index : Dict Category → List Evidence → Dict Category
category_index m [] = m
category_index m (e ∷ es) = category_index (insert e.id e.category m) es

-- supportCats: the categories of the evidence that the ids name.
unfoldable pub support_categories : Dict Category → List Category → List String → List Category
support_categories m cats [] = cats
support_categories m cats (id ∷ ids) =
    support_categories m
      (elim (lookup id m) [
        | none ↦ cats
        | some c ↦ if contains cats c then cats else cats ++ c ∷ []
      ])
      ids

module _ (P : Platform) where
  open P use {Float, of_ℕ, plus, minus, times, over, lt}

  abbrev pub runner_up : List (Hypothesis Float) → Float
  runner_up [] = of_ℕ 0
  runner_up (h ∷ hs) = h.confidence

  -- How far the first hypothesis leads, from 0 to 1.
  unfoldable pub separation : Hypothesis Float → List (Hypothesis Float) → Float
  separation lead others = over (minus lead.confidence (runner_up others)) (of_ℕ 100)

  unfoldable pub corroboration : Session Float → Hypothesis Float → Float
  unfolding support_categories category_index
  corroboration s lead =
      let share =
        over
          (of_ℕ (
            length (support_categories (category_index [] s.evidence) [] lead.supporting_evidence)))
          (of_ℕ 3) in
      if lt (of_ℕ 1) share then of_ℕ 1 else share

  unfoldable pub temporal : Signals → Float
  temporal sig =
      if sig.deploy_before_incident || (is_some sig.incident_onset && is_some sig.recovery)
      then of_ℕ 1
      else of_ℕ 0

  -- 0.4 + 0.6 * coverage
  unfoldable pub coverage_factor : Float → Float
  unfolding percent
  coverage_factor progress = plus (percent P 40) (times (percent P 60) (over progress (of_ℕ 100)))

  abbrev pub severity_penalty : String → ℕ
  severity_penalty severity =
      if severity == "high" then 12 else if severity == "medium" then 6 else 3

  -- The loop over the contradictions.
  unfoldable pub penalty : Float → List Contradiction → Float
  penalty total [] = total
  penalty total (c ∷ cs) = penalty (plus total (of_ℕ (severity_penalty c.severity))) cs

  unfoldable pub base_confidence :
      Session Float → Signals → Hypothesis Float → List (Hypothesis Float) → Float
  unfolding percent separation corroboration temporal
  base_confidence s sig lead others =
      plus
        (plus
          (plus (times (percent P 45) lead.confidence) (times (of_ℕ 25) (separation lead others)))
          (times (of_ℕ 15) (corroboration s lead)))
        (times (of_ℕ 15) (temporal sig))

  -- The end of Score and of ComputeConfidenceBreakdown.
  unfoldable pub overall_confidence :
      Session Float
      → Signals
      → Hypothesis Float
      → List (Hypothesis Float)
      → List Contradiction
      → Float
      → Float
  unfolding base_confidence coverage_factor penalty
  overall_confidence s sig lead others contradictions progress =
      clamp P
        (round1 P (
          minus (times (base_confidence s sig lead others) (coverage_factor progress))
            (penalty (of_ℕ 0) contradictions)))
        (of_ℕ 0) (of_ℕ 99)

  -- HeuristicConfidenceScorer.Score
  unfoldable pub score_confidence :
      Session Float → Signals → List (Hypothesis Float) → List Contradiction → Float → Float
  unfolding overall_confidence
  score_confidence s sig [] contradictions progress = of_ℕ 0
  score_confidence s sig (lead ∷ others) contradictions progress =
      overall_confidence s sig lead others contradictions progress

  -- ComputeConfidenceBreakdown
  unfoldable pub confidence_breakdown :
      Session Float
      → Signals
      → List (Hypothesis Float)
      → List Contradiction
      → Float
      → ConfidenceBreakdown Float
  unfolding overall_confidence separation corroboration temporal coverage_factor penalty
  confidence_breakdown s sig [] contradictions progress = record {
    leading_hypothesis = of_ℕ 0;
    separation = of_ℕ 0;
    corroboration = of_ℕ 0;
    temporal = of_ℕ 0;
    coverage_factor = of_ℕ 0;
    contradiction_penalty = of_ℕ 0;
    overall = of_ℕ 0;
  }
  confidence_breakdown s sig (lead ∷ others) contradictions progress = record {
    leading_hypothesis = round1 P lead.confidence;
    separation = round1 P (times (separation lead others) (of_ℕ 100));
    corroboration = round1 P (times (corroboration s lead) (of_ℕ 100));
    temporal = round1 P (times (temporal sig) (of_ℕ 100));
    coverage_factor = round1 P (times (coverage_factor progress) (of_ℕ 100));
    contradiction_penalty = round1 P (penalty (of_ℕ 0) contradictions);
    overall = overall_confidence s sig lead others contradictions progress;
  }
