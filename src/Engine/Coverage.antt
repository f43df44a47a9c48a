-- ===== src/Engine/Coverage.antt =====
-- internal/engine/coverage.go. Go leaves the order of the map of targets open, which matters to the
-- rounding of the sums alone; here it is the order in which the categories are entered.
use text.Mathlib.Text.{is_lt}
use Prim.Native.String.{compare}
use incident_investigator.Prelude.{
  ℕ, ltb, Bool, true, not, Option, none, some, List, [], ◌∷◌, ◌==◌, filter, length, is_some,
  if◌then◌else◌,
}
use incident_investigator.Prelude.Dict.{Dict, lookup, insert}
use incident_investigator.Prelude.Sorting.{sort}
use incident_investigator.Model.Platform.{Platform, round1}
use incident_investigator.Model.Evidence.{
  Category, Evidence, EvidenceRequest, weight, alert_events, deployment_events,
  infrastructure_events, application_logs, metrics_category, trace_events, configuration_changes,
}
use incident_investigator.Model.Investigation.{CategoryCoverage, CoverageReport}
use incident_investigator.Model.Protocol.{Goal}
use incident_investigator.Model.Session.{Session}

-- goalCategories
unfoldable pub goal_categories : Goal → List Category
goal_categories Goal.timeline =
    alert_events ∷ deployment_events ∷ infrastructure_events ∷ application_logs ∷ []
goal_categories Goal.blast_radius = metrics_category ∷ trace_events ∷ alert_events ∷ []
goal_categories Goal.deployment_verification =
    deployment_events ∷ configuration_changes ∷ application_logs ∷ metrics_category ∷ []
goal_categories Goal.performance_regression =
    metrics_category ∷ trace_events ∷ application_logs ∷ []
goal_categories Goal.availability = alert_events ∷ metrics_category ∷ infrastructure_events ∷ []
goal_categories _ = deployment_events ∷ application_logs ∷ alert_events ∷ metrics_category ∷ []

-- The loops that fill the targets; a target is a small whole number.
unfoldable pub goal_targets : Dict ℕ → List Category → Dict ℕ
goal_targets m [] = m
goal_targets m (c ∷ cs) = goal_targets (insert c 3 m) cs

abbrev pub is_weaker : Option ℕ → ℕ → Bool
is_weaker none w = true
is_weaker (some t) w = ltb t w

unfoldable pub request_targets : Dict ℕ → List EvidenceRequest → Dict ℕ
unfolding weight
request_targets m [] = m
request_targets m (r ∷ rs) =
    request_targets
      (if is_weaker (lookup r.category m) (weight r.priority)
        then insert r.category (weight r.priority) m
        else m)
      rs

unfoldable pub evidence_targets : Dict ℕ → List Evidence → Dict ℕ
evidence_targets m [] = m
evidence_targets m (e ∷ es) =
    evidence_targets (if is_some (lookup e.category m) then m else insert e.category 1 m) es

-- counts[c]
unfoldable pub category_count : List Evidence → Category → ℕ
category_count evidence c = length (filter (λ (e : Evidence). e.category == c) evidence)

unfoldable pub coverage_targets : {F : Type 0} → Session F → List EvidenceRequest → Dict ℕ
unfolding goal_targets request_targets evidence_targets goal_categories
coverage_targets s required =
    evidence_targets (request_targets (goal_targets [] (goal_categories s.goal)) required)
      s.evidence

module _ (P : Platform) where
  open P use {Float, of_ℕ, plus, times, over, lt, eq}

  unfoldable pub depth_percent : ℕ → ℕ → Float
  depth_percent count target =
      let depth = over (of_ℕ count) (of_ℕ target) in
      round1 P (times (if lt (of_ℕ 1) depth then of_ℕ 1 else depth) (of_ℕ 100))

  -- The loop over the targets.
  unfoldable pub covered_categories : List Evidence → Dict ℕ → List (CategoryCoverage Float)
  unfolding depth_percent category_count
  covered_categories evidence [] = []
  covered_categories evidence ((c, target) ∷ others) =
      record {
        category = c;
        percent = depth_percent (category_count evidence c) target;
        count = category_count evidence c;
      }
      ∷ covered_categories evidence others

  unfoldable pub weigh_coverage : List Evidence → Float → Float → Dict ℕ → Float × Float
  unfolding depth_percent category_count
  weigh_coverage evidence total weighted [] = (total, weighted)
  weigh_coverage evidence total weighted ((c, target) ∷ others) =
      weigh_coverage evidence (plus total (of_ℕ target))
        (plus weighted (times (depth_percent (category_count evidence c) target) (of_ℕ target)))
        others

  -- The comparison of the sort.
  unfoldable pub better_covered : CategoryCoverage Float → CategoryCoverage Float → Bool
  better_covered a b =
      if not (eq a.percent b.percent)
      then lt b.percent a.percent
      else is_lt (compare a.category b.category)

  -- HeuristicCoverageEngine.Compute
  unfoldable pub compute_coverage : Session Float → List EvidenceRequest → CoverageReport Float
  unfolding coverage_targets covered_categories weigh_coverage better_covered
  compute_coverage s required =
      let targets = coverage_targets s required in
      let sums = weigh_coverage s.evidence (of_ℕ 0) (of_ℕ 0) targets in
      record {
        categories = sort better_covered (covered_categories s.evidence targets);
        overall = if lt (of_ℕ 0) sums.0 then round1 P (over sums.1 sums.0) else of_ℕ 0;
      }
