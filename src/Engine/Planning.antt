-- ===== src/Engine/Planning.antt =====
-- internal/engine/planner.go, missing.go and timeline.go.
pub mod Timelines
pub mod Plans
use text.Mathlib.Text.{is_lt}
use Prim.Native.String.{compare}
use incident_investigator.Prelude.{
  ℕ, ◌+◌, ltb, String, Bool, true, false, not, ◌||◌, Option, none, some, List, [], ◌∷◌, ◌==◌, ◌<>◌,
  filter, map, is_some, if◌then◌else◌,
}
use incident_investigator.Prelude.Dict.{Dict, lookup, insert, values}
use incident_investigator.Prelude.Sorting.{sort}
use incident_investigator.Model.Platform.{Platform, round1}
use incident_investigator.Model.Evidence.{
  Category, Evidence, EvidenceRequest, Priority, weight, deployment_events, application_logs,
  alert_events, metrics_category, database_events, trace_events, configuration_changes,
  network_events, security_events, infrastructure_events, human_context,
}
use incident_investigator.Model.Investigation.{TimelineEntry}
use incident_investigator.Model.Session.{Session, has_category}
use incident_investigator.Model.Signals.{Signals}
use incident_investigator.Signals.{matches_any}
use incident_investigator.Signals.Keywords.{keywords_of}
use incident_investigator.Signals.Lock.{sorted_by_time}

abbrev pub Requests : Type 0
Requests = Dict EvidenceRequest

-- The request that `add` writes: the stronger priority, and the later reason where it says something.
unfoldable pub upgraded : Option EvidenceRequest → Category → Priority → String → EvidenceRequest
unfolding weight
upgraded none c pr reason = record { category = c; priority = pr; reason = reason }
upgraded (some r) c pr reason = record r {
  priority = if ltb (weight r.priority) (weight pr) then pr else r.priority;
  reason = if reason == "" then r.reason else reason;
}

-- add
unfoldable pub add_request : Category → Priority → String → Requests → Requests
unfolding upgraded
add_request c pr reason m = insert c (upgraded (lookup c m) c pr reason) m

-- add behind a test
unfoldable pub add_if : Bool → Category → Priority → String → Requests → Requests
unfolding add_request
add_if test c pr reason m = if test then add_request c pr reason m else m

-- The baseline of Plan.
unfoldable pub baseline : Requests
unfolding add_request
baseline =
    add_request metrics_category Priority.medium
      "Need metrics to assess saturation and system health."
      (add_request alert_events Priority.medium
        "Need alerts to establish incident onset and severity."
        (add_request application_logs Priority.high
          "Need application logs to characterize the failure mode."
          (add_request deployment_events Priority.high
            "Need to determine whether a deployment preceded the incident." [])))

-- The hints of the question, in lower case.
unfoldable pub hinted : String → Requests → Requests
unfolding add_if matches_any keywords_of
hinted q m =
    add_if (matches_any q (keywords_of "latency")) trace_events Priority.medium
      "Latency questions are best localized with distributed traces."
      (add_if (matches_any q (keywords_of "database")) database_events Priority.high
        "The question references the database; collect database events." m)

-- What a deployment asks for.
unfoldable pub after_deployment : Signals → Requests → Requests
unfolding add_if
after_deployment sig m =
    add_if (is_some sig.first_deployment) trace_events Priority.medium
      "Traces can localize which dependency broke after the deployment."
      (add_if (is_some sig.first_deployment) configuration_changes Priority.high
        "A deployment was observed near the incident; configuration changes are a likely trigger."
        m)

-- What the other signals ask for.
unfoldable pub after_symptoms : Signals → Requests → Requests
unfolding add_if
after_symptoms sig m =
    add_if (is_some sig.incident_onset) human_context Priority.low
      "Human context (chat, runbooks) can corroborate the timeline."
      (add_if (sig.keywords "restart" || sig.keywords "memory") infrastructure_events
        Priority.medium "Restart or memory symptoms detected; collect infrastructure events."
        (add_if (sig.keywords "cert") security_events Priority.high
          "Certificate/TLS symptoms detected; collect security events."
          (add_if (sig.keywords "dns" || sig.keywords "network") network_events Priority.high
            "Network or DNS symptoms detected; collect network events."
            (add_if (sig.keywords "database" || ltb 0 (sig.categories metrics_category))
              database_events Priority.high
              "Logs or metrics suggest database involvement; collect database events." m))))

-- The comparison of sortRequests.
unfoldable pub requested_before : EvidenceRequest → EvidenceRequest → Bool
unfolding weight
requested_before a b =
    if ltb (weight b.priority) (weight a.priority)
    then true
    else if ltb (weight a.priority) (weight b.priority)
    then false
    else is_lt (compare a.category b.category)

-- sortRequests
unfoldable pub sort_requests : Requests → List EvidenceRequest
unfolding requested_before
sort_requests m = sort requested_before (values m)

-- Timeline: the entry of one piece of evidence.
abbrev pub timeline_entry : Evidence → TimelineEntry
timeline_entry e = record {
  timestamp = e.timestamp;
  description = e.summary;
  category = e.category;
  entity = e.entity;
  evidence_refs = e.id ∷ [];
}

-- HeuristicTimelineBuilder.Build
unfoldable pub build_timeline : List Evidence → List TimelineEntry
unfolding sorted_by_time
build_timeline evidence = map timeline_entry (sorted_by_time evidence)

-- The sums of Progress: the weight of all requests, and of those that are covered.
unfoldable pub total_weight : List EvidenceRequest → ℕ
unfolding weight
total_weight [] = 0
total_weight (r ∷ rs) = weight r.priority + total_weight rs

module _ {F : Type 0} where
  -- HeuristicMissingEvidenceDetector.Detect
  unfoldable pub detect_missing : Session F → List EvidenceRequest → List EvidenceRequest
  unfolding has_category
  detect_missing s required =
      filter (λ (r : EvidenceRequest). not (has_category s r.category)) required

module _ (P : Platform) where
  open P use {Float, of_ℕ, times, over, to_lower}

  -- HeuristicPlanner.Plan
  unfoldable pub plan_requests : Session Float → Signals → List EvidenceRequest
  unfolding sort_requests after_symptoms after_deployment hinted baseline
  plan_requests s sig = sort_requests (
      after_symptoms sig
        (after_deployment sig (hinted (to_lower (s.question <> " " <> s.service)) baseline)))

  -- Progress. The weights are small whole numbers, whose sums a float64 holds exactly.
  unfoldable pub evidence_progress : Session Float → List EvidenceRequest → Float
  unfolding total_weight has_category
  evidence_progress s required =
      let total = total_weight required in
      let covered =
        total_weight (filter (λ (r : EvidenceRequest). has_category s r.category) required) in
      if not (ltb 0 total)
      then of_ℕ 0
      else round1 P (times (over (of_ℕ covered) (of_ℕ total)) (of_ℕ 100))
