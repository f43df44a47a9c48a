-- ===== src/Engine/Progress.antt =====
-- ComputeInvestigationProgress and ComputeMetrics of internal/engine/progress_v2.go
use incident_investigator.Prelude.{ℕ, suc, ltb, not, List, filter, map, length, if◌then◌else◌}
use incident_investigator.Model.Platform.{Platform, round1, sum, percent}
use incident_investigator.Model.Evidence.{Hypothesis, ReasoningTrace, is_refuted}
use incident_investigator.Model.Investigation.{
  SufficiencyReport, InvestigationProgress, ReasoningMetrics, CoverageReport,
}
use incident_investigator.Model.Session.{Session}
use incident_investigator.Engine.Planning.{evidence_progress}

module _ (P : Platform) where
  open P use {Float, of_ℕ, plus, minus, times, over, lt, eq}

  -- questionFactor
  unfoldable pub question_factor : ℕ → Float
  unfolding percent
  question_factor blocking =
      if not (ltb 0 blocking)
      then of_ℕ 1
      else let factor = minus (of_ℕ 1) (times (of_ℕ blocking) (percent P 12)) in
        if lt factor (percent P 20) then percent P 20 else factor

  -- ComputeInvestigationProgress
  unfoldable pub compute_investigation_progress :
      Session Float → CoverageReport Float → SufficiencyReport Float → InvestigationProgress Float
  unfolding question_factor evidence_progress percent
  compute_investigation_progress s coverage sufficiency =
      let blocking = length sufficiency.blocking_questions in
      let blended = round1 P (
        plus
          (plus (times (percent P 45) (evidence_progress P s s.required_evidence))
            (times (percent P 35) coverage.overall))
          (times (percent P 20) (times s.confidence (question_factor blocking)))) in
      record {
        percent_complete = if lt (of_ℕ 100) blended then of_ℕ 100 else blended;
        confidence = s.confidence;
        coverage = coverage.overall;
        remaining_questions = blocking;
      }

  unfoldable pub average_gain : List (ReasoningTrace Float) → Float
  average_gain traces =
      let gains =
        filter (λ g. not (eq g (of_ℕ 0)))
          (map (λ (t : ReasoningTrace Float). t.confidence_change) traces) in
      if ltb 0 (length gains) then round1 P (over (sum P gains) (of_ℕ (length gains))) else of_ℕ 0

  -- ComputeMetrics
  unfoldable pub compute_metrics :
      Session Float → CoverageReport Float → ReasoningMetrics Float → ReasoningMetrics Float
  unfolding average_gain
  compute_metrics s coverage previous = record {
    hypothesis_count = length s.hypotheses;
    rejected_hypotheses =
        length (filter (λ (h : Hypothesis Float). is_refuted h.status) s.hypotheses);
    contradiction_count = length s.contradictions;
    coverage = coverage.overall;
    evidence_count = length s.evidence;
    reasoning_iterations = suc previous.reasoning_iterations;
    planner_iterations = suc previous.planner_iterations;
    average_confidence_gain = average_gain s.reasoning_trace;
  }
