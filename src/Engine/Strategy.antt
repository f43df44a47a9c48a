-- ===== src/Engine/Strategy.antt =====
-- internal/engine/strategy.go
use incident_investigator.Prelude.{
  ℕ, suc, ◌+◌, ◌*◌, String, Bool, true, false, not, ◌&&◌, Option, none, some, List, [], ◌∷◌, ◌==◌,
  ◌<>◌, contains, filter, map, take, is_some, if◌then◌else◌,
}
use incident_investigator.Prelude.Dict.{Dict, lookup}
use incident_investigator.Prelude.Insertion.{insertion_sort}
use incident_investigator.Model.Platform.{Platform, clamp, round1}
use incident_investigator.Model.Evidence.{
  Category, EvidenceRequest, Hypothesis, is_refuted, weight, alert_events, application_logs,
  configuration_changes, database_events, deployment_events, human_context, infrastructure_events,
  metrics_category, network_events, security_events, trace_events,
}
use incident_investigator.Model.Investigation.{NextStep}
use incident_investigator.Model.Protocol.{Goal}
use incident_investigator.Model.Session.{Session}
use incident_investigator.Model.Signals.{Signals}
use incident_investigator.Engine.Coverage.{goal_categories}
use incident_investigator.Engine.Planning.{plan_requests, detect_missing}

-- The switch of categorySupportsHypothesis, as a table.
unfoldable pub supporting_categories : Dict (List Category)
supporting_categories =
    ("hypothesis-deployment-caused", deployment_events ∷ configuration_changes ∷ [])
    ∷ ("hypothesis-deployment-unrelated", deployment_events ∷ configuration_changes ∷ [])
    ∷ ("hypothesis-configuration-change", configuration_changes ∷ application_logs ∷ [])
    ∷ ("hypothesis-database-saturation", database_events ∷ metrics_category ∷ [])
    ∷ ("hypothesis-lock-contention", database_events ∷ trace_events ∷ configuration_changes ∷ [])
    ∷ ("hypothesis-network-failure", network_events ∷ [])
    ∷ ("hypothesis-dns-failure", network_events ∷ [])
    ∷ ("hypothesis-certificate-expiry", security_events ∷ [])
    ∷ ("hypothesis-resource-exhaustion", infrastructure_events ∷ metrics_category ∷ [])
    ∷ ("hypothesis-retry-storm", metrics_category ∷ trace_events ∷ [])
    ∷ ("hypothesis-dependency-failure", trace_events ∷ application_logs ∷ [])
    ∷ ("hypothesis-performance-regression", metrics_category ∷ trace_events ∷ [])
    ∷ ("hypothesis-external-outage", network_events ∷ application_logs ∷ [])
    ∷ ("hypothesis-auth-failure", security_events ∷ application_logs ∷ [])
    ∷ ("hypothesis-human-error", human_context ∷ configuration_changes ∷ [])
    ∷ ("hypothesis-capacity-planning", metrics_category ∷ infrastructure_events ∷ [])
    ∷ ("hypothesis-security-incident", security_events ∷ human_context ∷ [])
    ∷ ("hypothesis-infrastructure-failure", infrastructure_events ∷ alert_events ∷ [])
    ∷ ("hypothesis-kubernetes-failure", infrastructure_events ∷ application_logs ∷ [])
    ∷ ("hypothesis-container-failure", infrastructure_events ∷ application_logs ∷ [])
    ∷ ("hypothesis-storage-failure", infrastructure_events ∷ metrics_category ∷ [])
    ∷ ("hypothesis-cache-failure", metrics_category ∷ application_logs ∷ [])
    ∷ ("hypothesis-messaging-failure", application_logs ∷ metrics_category ∷ [])
    ∷ ("hypothesis-load-balancer-failure", network_events ∷ application_logs ∷ [])
    ∷ ("hypothesis-api-contract-failure", application_logs ∷ deployment_events ∷ [])
    ∷ ("hypothesis-data-corruption", database_events ∷ application_logs ∷ [])
    ∷ ("hypothesis-clock-failure", infrastructure_events ∷ security_events ∷ [])
    ∷ ("hypothesis-feature-flag-failure", configuration_changes ∷ [])
    ∷ ("hypothesis-regional-failure", infrastructure_events ∷ network_events ∷ [])
    ∷ ("hypothesis-dr-failover-failure", infrastructure_events ∷ database_events ∷ [])
    ∷ ("hypothesis-observability-failure", human_context ∷ application_logs ∷ [])
    ∷ []

abbrev pub is_listed : Category → Option (List Category) → Bool
is_listed c none = false
is_listed c (some cats) = contains cats c

-- categorySupportsHypothesis
unfoldable pub category_supports : Category → String → Bool
unfolding supporting_categories
category_supports c id = is_listed c (lookup id supporting_categories)

-- goalRelevantCategory
unfoldable pub is_goal_relevant : Goal → Category → Bool
unfolding goal_categories
is_goal_relevant goal c = contains (goal_categories goal) c

abbrev pub is_blast_radius : Goal → Bool
is_blast_radius Goal.blast_radius = true
is_blast_radius _ = false

module _ {F : Type 0} where
  -- hypothesesBlockedBy
  unfoldable pub hypotheses_blocked_by : Category → List (Hypothesis F) → String → List String
  unfolding category_supports
  hypotheses_blocked_by c hyps lead =
      map (λ (h : Hypothesis F). h.id)
        (filter
          (λ (h : Hypothesis F).
            not (is_refuted h.status) && category_supports c h.id && not (h.id == lead))
          hyps)

  -- leadID
  unfoldable pub lead_id : List (Hypothesis F) → String
  lead_id [] = ""
  lead_id (h ∷ hs) = h.id

  -- strategyReason
  unfoldable pub strategy_reason : EvidenceRequest → List (Hypothesis F) → String → String
  strategy_reason m [] lead =
      if not (m.reason == "")
      then m.reason
      else "Collect " <> m.category <> " to advance the investigation."
  strategy_reason m (h ∷ hs) lead =
      if not (m.reason == "")
      then m.reason
      else if not (lead == "")
      then "Current leading hypothesis (" <> h.statement <> ") cannot be confirmed without "
        <> m.category <> "."
      else "Collect " <> m.category <> " to advance the investigation."

  -- The loop that numbers the steps.
  unfoldable pub numbered : ℕ → List (NextStep F) → List (NextStep F)
  numbered n [] = []
  numbered n (st ∷ steps) = record st { priority = n } ∷ numbered (suc n) steps

module _ (P : Platform) where
  open P use {Float, of_ℕ, lt}

  abbrev pub is_doubtful : List (Hypothesis Float) → Bool
  is_doubtful [] = false
  is_doubtful (h ∷ hs) = lt h.confidence (of_ℕ 60)

  abbrev pub points : Bool → ℕ → ℕ
  points test n = if test then n else 0

  -- The base of expectedGain, a sum of whole numbers.
  unfoldable pub base_gain : EvidenceRequest → Signals → List (Hypothesis Float) → Goal → ℕ
  unfolding is_goal_relevant weight
  base_gain m sig hyps goal =
      weight m.priority * 8
      + points (is_goal_relevant goal m.category) 10
      + points (is_doubtful hyps) 5
      + points ((m.category == deployment_events) && not (is_some sig.first_deployment)) 15
      + points ((m.category == metrics_category) && sig.keywords "latency") 12
      + points ((m.category == metrics_category) && is_blast_radius goal) 18
      + points ((m.category == trace_events) && is_blast_radius goal) 16
      + points ((m.category == alert_events) && is_blast_radius goal) 14
      + points ((m.category == database_events) && sig.keywords "database") 14

  -- expectedGain of the same file
  unfoldable pub step_gain : EvidenceRequest → Signals → List (Hypothesis Float) → Goal → Float
  unfolding base_gain
  step_gain m sig hyps goal =
      round1 P (clamp P (of_ℕ (base_gain m sig hyps goal)) (of_ℕ 5) (of_ℕ 35))

  unfoldable pub step_for :
      Session Float → Signals → List (Hypothesis Float) → EvidenceRequest → NextStep Float
  unfolding step_gain hypotheses_blocked_by strategy_reason lead_id
  step_for s sig hyps m = record {
    priority = 0;
    category = m.category;
    reason = strategy_reason m hyps (lead_id hyps);
    expected_confidence_gain = step_gain m sig hyps s.goal;
    blocks_hypothesis = hypotheses_blocked_by m.category hyps (lead_id hyps);
  }

  -- sortNextSteps
  unfoldable pub sort_next_steps : List (NextStep Float) → List (NextStep Float)
  unfolding insertion_sort
  sort_next_steps steps =
      insertion_sort
        (λ (a b : NextStep Float). lt b.expected_confidence_gain a.expected_confidence_gain) steps

  unfoldable pub ranked_steps :
      Session Float
      → Signals
      → List (Hypothesis Float)
      → List EvidenceRequest
      → List (NextStep Float)
  unfolding sort_next_steps step_for detect_missing numbered
  ranked_steps s sig hyps required =
      numbered 1 (take 2 (sort_next_steps (map (step_for s sig hyps) (detect_missing s required))))

  -- NextSteps. A slice that is nil asks the planner.
  unfoldable pub next_steps :
      Session Float
      → Signals
      → List (Hypothesis Float)
      → Option (List EvidenceRequest)
      → List (NextStep Float)
  unfolding ranked_steps plan_requests
  next_steps s sig hyps none = ranked_steps s sig hyps (plan_requests P s sig)
  next_steps s sig hyps (some required) = ranked_steps s sig hyps required
