-- ===== src/Sufficiency.antt =====
-- internal/engine/sufficiency.go: whether the evidence is enough to answer.
use incident_investigator.Prelude.{
  ltb, ◌==◌, String, Bool, true, false, not, ◌&&◌, List, [], ◌∷◌, ◌++◌, ◌<>◌, length, any, map,
  is_some, if◌then◌else◌,
}
use incident_investigator.Model.Platform.{Platform}
use incident_investigator.Model.Evidence.{
  Hypothesis, Contradiction, EvidenceRequest, Priority, database_events, metrics_category,
}
use incident_investigator.Model.Session.{Session, has_category}
use incident_investigator.Model.Investigation.{SufficiencyReport, BlockingQuestion}
use incident_investigator.Model.Signals.{Signals}

-- hasHighSeverityContradiction
unfoldable pub has_high_severity_contradiction : List Contradiction → Bool
has_high_severity_contradiction cs = any (λ (c : Contradiction). c.severity == "high") cs

-- missingRequirements. An evidence requirement has the fields of an evidence request.
unfoldable pub missing_requirements : List EvidenceRequest → List EvidenceRequest
missing_requirements missing =
    map
      (λ (m : EvidenceRequest). record {
        category = m.category;
        priority = m.priority;
        reason = m.reason;
      })
      missing

abbrev pub ask : String → String → Priority → String → BlockingQuestion
ask id question priority reason = record {
  id = id;
  question = question;
  priority = priority;
  reason = reason;
}

module _ (P : Platform) where
  open P use {Float, of_ℕ, lt, le, minus, quote, decimal, whole}

  -- A question of deriveBlockingQuestions behind its test.
  abbrev pub asked_if : Bool → BlockingQuestion → List BlockingQuestion
  asked_if true q = q ∷ []
  asked_if false q = []

  abbrev pub deploy_blocking : Signals → List BlockingQuestion
  deploy_blocking sig =
      asked_if (is_some sig.first_deployment && not (is_some sig.incident_onset)) (
        ask "blocking-deploy-before-errors" "Did deployment happen before errors?" Priority.high
          "A deployment was observed but incident onset is not yet established.")
      ++ asked_if
          (is_some sig.first_deployment && not (is_some sig.recovery) && sig.deploy_before_incident)
          (ask "blocking-rollback-success" "Was rollback successful?" Priority.medium
            "Deployment preceded symptoms; recovery evidence would confirm or refute the deploy theory.")

  abbrev pub symptom_blocking : Session Float → Signals → List BlockingQuestion
  symptom_blocking s sig =
      asked_if (sig.keywords "database" && not (has_category s database_events)) (
        ask "blocking-database-health" "Was database healthy?" Priority.high
          "Database symptoms detected but no database events submitted.")
      ++ asked_if
          (sig.keywords "latency" && sig.keywords "retry" && not (has_category s metrics_category))
          (ask "blocking-latency-before-retries" "Did latency begin before retries?" Priority.medium
            "Retry and latency signals need metrics to establish ordering.")

  abbrev pub separation_blocking : List (Hypothesis Float) → List BlockingQuestion
  separation_blocking (lead ∷ runner ∷ others) =
      asked_if (lt (minus lead.confidence runner.confidence) (of_ℕ 15)) (
        ask "blocking-hypothesis-separation"
          ("Can "
            <> quote lead.statement
            <> " be distinguished from "
            <> quote runner.statement
            <> "?")
          Priority.high "Leading hypotheses are too close in confidence to conclude.")
  separation_blocking _ = []

  -- deriveBlockingQuestions
  unfoldable pub derive_blocking_questions : Session Float → Signals → List BlockingQuestion
  derive_blocking_questions s sig =
      deploy_blocking sig ++ symptom_blocking s sig ++ separation_blocking s.hypotheses

  -- sufficiencyReason
  unfoldable pub sufficiency_reason : Bool → Session Float → Float → List BlockingQuestion → String
  sufficiency_reason can_answer s coverage blocking =
      if can_answer
      then "Confidence "
        <> whole s.confidence
        <> "% and coverage "
        <> whole coverage
        <> "% meet thresholds with no blocking questions."
      else if not (ltb 0 (length s.evidence))
      then "No evidence submitted yet."
      else if ltb 0 (length blocking)
      then decimal (length blocking) <> " blocking question(s) remain before a trustworthy answer."
      else if lt coverage (of_ℕ 65)
      then "Coverage " <> whole coverage <> "% is below the threshold; collect more categories."
      else if lt s.confidence (of_ℕ 70)
      then "Confidence " <> whole s.confidence <> "% is below the threshold."
      else "High-severity contradictions must be resolved first."

  -- Evaluate, with the fields MinConfidence and MinCoverage of the engine. The default ones are 70
  -- and 65. `coverage` is the overall coverage.
  unfoldable pub evaluate :
      Float → Float → Session Float → Signals → Float → SufficiencyReport Float
  evaluate min_confidence min_coverage s sig coverage =
      let blocking = derive_blocking_questions s sig in
      let can_answer =
        ltb 0 (length s.evidence)
        && le min_confidence s.confidence
        && le min_coverage coverage
        && not (ltb 0 (length blocking))
        && not (has_high_severity_contradiction s.contradictions) in
      record {
        can_answer = can_answer;
        overall_confidence = s.confidence;
        coverage = coverage;
        blocking_questions = blocking;
        missing_evidence = missing_requirements s.missing_evidence;
        reason = sufficiency_reason can_answer s coverage blocking;
      }
