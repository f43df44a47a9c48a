-- ===== src/Protocol/Resolution/Services.antt =====
-- The cases of ResolutionEngine.Resolve from vendor outages to gaps of observability, by groups. Each
-- group hands a question that it does not know on.
use incident_investigator.Prelude.{◌==◌, String, ◌||◌, if◌then◌else◌}
use incident_investigator.Model.Platform.{Platform}
use incident_investigator.Model.Evidence.{configuration_changes, security_events, human_context}
use incident_investigator.Model.Session.{Session, has_category}
use incident_investigator.Model.Signals.{Signals}
use incident_investigator.Protocol.Resolution.Verdicts.{
  Verdict, say_confirmed, say_rejected, say_insufficient,
}

module _ (P : Platform) where
  open P use {Float, to_lower}

  -- The cases of vendor-outage to security-breach.
  unfoldable pub resolve_operations : Session Float → Signals → String → Verdict → Verdict
  resolve_operations s sig id otherwise =
      if id == "vendor-outage"
      then (if sig.keywords "external"
          then say_confirmed 90 "Third-party or vendor outage symptoms detected."
          else say_insufficient 30 "Need external provider evidence.")
      else if id == "auth-failure"
      then (if sig.keywords "auth"
          then say_confirmed 89 "Authentication or authorization failure detected."
          else say_insufficient 30 "Need security and log evidence for auth failures.")
      else if id == "manual-change"
      then (if sig.keywords "human" || has_category s human_context
          then say_confirmed 87 "Human or operational error evidence present."
          else say_insufficient 30 "Need human context evidence.")
      else if id == "capacity-exceeded"
      then (if sig.keywords "capacity"
          then say_confirmed 85 "Capacity or autoscaling stress detected."
          else say_insufficient 30 "Need metrics and infrastructure evidence.")
      else if id == "security-breach"
      then (if sig.keywords "security"
          then say_confirmed 91 "Security incident symptoms detected."
          else if has_category s security_events
          then say_rejected 70 "Security events without breach indicators."
          else say_insufficient 30 "Need security event evidence.")
      else otherwise

  -- The cases of node-unavailable to lb-health-check.
  unfoldable pub resolve_platform : Session Float → Signals → String → Verdict → Verdict
  resolve_platform s sig id otherwise =
      if id == "node-unavailable"
      then (if sig.keywords "infrastructure"
          then say_confirmed 88 "Infrastructure or node failure symptoms detected."
          else say_insufficient 30 "Need infrastructure event evidence.")
      else if id == "k8s-crashloop"
      then (if sig.keywords "kubernetes" || sig.keywords "restart"
          then say_confirmed 87 "Kubernetes lifecycle or restart symptoms detected."
          else say_insufficient 30 "Need infrastructure and log evidence for Kubernetes faults.")
      else if id == "image-pull-failed"
      then (if sig.keywords "container"
          then say_confirmed 86 "Container runtime or image pull symptoms detected."
          else say_insufficient 30 "Need container runtime evidence.")
      else if id == "storage-unavailable"
      then (if sig.keywords "storage"
          then say_confirmed 88 "Storage unavailability or saturation symptoms detected."
          else say_insufficient 30 "Need storage and metrics evidence.")
      else if id == "cache-unavailable"
      then (if sig.keywords "cache"
          then say_confirmed 85 "Cache unavailability or stampede symptoms detected."
          else say_insufficient 30 "Need cache and metrics evidence.")
      else if id == "consumer-lag"
      then (if sig.keywords "messaging"
          then say_confirmed 87 "Messaging queue or consumer lag symptoms detected."
          else say_insufficient 30 "Need messaging log and metrics evidence.")
      else if id == "lb-health-check"
      then (if sig.keywords "loadbalancer"
          then say_confirmed 88 "Load balancer or proxy health-check symptoms detected."
          else say_insufficient 30 "Need network and log evidence for load-balancer faults.")
      else otherwise

  -- The cases of api-breaking-change to observability-gap.
  unfoldable pub resolve_data : Session Float → Signals → String → Verdict → Verdict
  resolve_data s sig id otherwise =
      if id == "api-breaking-change"
      then (if sig.keywords "apicontract"
          then say_confirmed 86 "API contract or schema mismatch symptoms detected."
          else say_insufficient 30 "Need application log evidence for contract failures.")
      else if id == "data-corrupted"
      then (if sig.keywords "datacorruption"
          then say_confirmed 90 "Data corruption or integrity failure symptoms detected."
          else say_insufficient 30 "Need database and log evidence for corruption.")
      else if id == "clock-drift"
      then (if sig.keywords "clock"
          then say_confirmed 84 "Clock drift or time-sync symptoms detected."
          else say_insufficient 30 "Need infrastructure evidence for clock faults.")
      else if id == "feature-flag-changed"
      then (if sig.keywords "featureflag"
          then say_confirmed 87 "Feature-flag change symptoms detected."
          else if has_category s configuration_changes
          then say_rejected 68 "Configuration change without feature-flag signals."
          else say_insufficient 30 "Need configuration evidence for flag changes.")
      else if id == "az-failure"
      then (if sig.keywords "regional"
          then say_confirmed 89 "Regional or availability-zone failure symptoms detected."
          else say_insufficient 30 "Need regional infrastructure evidence.")
      else if id == "failover-incomplete"
      then (if sig.keywords "dr"
          then say_confirmed 86 "Disaster-recovery or failover failure symptoms detected."
          else say_insufficient 30 "Need failover and database evidence.")
      else if id == "observability-gap"
      then (if sig.keywords "observability"
          then say_confirmed 80 "Observability gap or missing telemetry detected."
          else say_insufficient 30 "Need log and human-context evidence for observability gaps.")
      else otherwise
