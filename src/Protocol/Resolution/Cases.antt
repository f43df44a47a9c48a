-- ===== src/Protocol/Resolution/Cases.antt =====
-- The cases of ResolutionEngine.Resolve from deployments to latency, by groups, and the whole switch.
-- Each group hands a question that it does not know on.
use incident_investigator.Prelude.{
  ltb, ◌==◌, String, not, ◌&&◌, ◌||◌, ◌++◌, ◌<>◌, is_some, if◌then◌else◌,
}
use incident_investigator.Model.Platform.{Platform}
use incident_investigator.Model.Evidence.{
  database_events, configuration_changes, infrastructure_events, metrics_category, network_events,
  security_events, trace_events,
}
use incident_investigator.Model.Session.{Session, has_category}
use incident_investigator.Model.Signals.{Signals}
use incident_investigator.Signals.Negation.{
  all_deployment_evidence_ruled_out, all_configuration_evidence_ruled_out,
  has_affirmative_configuration_evidence,
}
use incident_investigator.Protocol.Resolution.Verdicts.{
  Verdict, say_confirmed, say_rejected, say_insufficient, with_support, contradicted, recovery_ids,
  has_category_error, has_saturation_metrics,
}
use incident_investigator.Protocol.Resolution.Services.{
  resolve_operations, resolve_platform, resolve_data,
}

module _ (P : Platform) where
  open P use {Float, to_lower, quote}

  -- The cases of deploy-before-errors to rollback-restored-service.
  unfoldable pub resolve_deployment : Session Float → Signals → String → Verdict → Verdict
  resolve_deployment s sig id otherwise =
      if id == "deploy-before-errors"
      then (if all_deployment_evidence_ruled_out P s
          then say_rejected 88
              "Deployment was investigated and explicitly ruled out before symptom onset."
          else if sig.deploy_before_incident
          then say_confirmed 88 "Deployment preceded the first symptom."
          else if sig.deploy_after_incident
          then contradicted (say_rejected 85 "Deployment occurred after incident onset.")
          else say_insufficient 40
              "Temporal ordering between deployment and symptoms is inconclusive.")
      else if id == "deploy-after-incident"
      then (if sig.deploy_after_incident
          then say_confirmed 90
              "Deployment occurred after incident onset; deployment is unlikely to be root cause."
          else if sig.deploy_before_incident
          then say_rejected 85
              "Deployment preceded symptoms; deploy-caused theories remain plausible."
          else say_insufficient 35 "Need deployment and symptom evidence to establish ordering.")
      else if id == "rollback-restored-service"
      then (if is_some sig.recovery
          then with_support (recovery_ids sig)
              (say_confirmed 91 "Recovery evidence observed after rollback or remediation.")
          else say_insufficient 35 "No recovery evidence submitted yet.")
      else otherwise

  -- The cases of database-healthy to lock-timeouts-missing.
  unfoldable pub resolve_database : Session Float → Signals → String → Verdict → Verdict
  resolve_database s sig id otherwise =
      if id == "database-healthy"
      then (if sig.lock.present
          then say_confirmed 85
              "Database capacity appears healthy; lock contention rather than saturation."
          else if sig.keywords "database" && has_category_error P s database_events
          then say_rejected 87 "Database events indicate saturation or errors."
          else if has_category s database_events
          then say_confirmed 80 "Database events show no saturation signals."
          else say_insufficient 30 "Insufficient database evidence.")
      else if id == "database-saturated"
      then (if sig.lock.present || sig.lock.healthy_database_metrics
          then say_rejected 84 "Database capacity appears healthy or lock contention is present."
          else if has_category_error P s database_events || has_saturation_metrics P s
          then say_confirmed 88 "Database events or metrics indicate saturation."
          else if has_category s database_events
          then say_rejected 72 "Database events present without saturation signals."
          else say_insufficient 30 "Need database events and metrics to assess saturation.")
      else if id == "lock-contention-queue"
      then (if sig.lock.present
          then with_support (sig.lock.holder_ids ++ sig.lock.waiter_ids) (
              say_confirmed 90
                "Multiple database statements on the same entity completed together, indicating a lock queue.")
          else if has_category s database_events
          then say_rejected 75 "Database events present but no lock-queue signature detected."
          else say_insufficient 30 "Need database and trace evidence to assess lock contention.")
      else if id == "lock-timeouts-missing"
      then (if sig.lock.missing_lock_timeouts
          then say_confirmed 86 "Configuration lacks statement_timeout or lock_timeout."
          else if has_category s configuration_changes
          then say_rejected 70 "No missing lock-timeout configuration detected."
          else say_insufficient 30 "Need configuration evidence to assess lock timeouts.")
      else otherwise

  -- The cases of latency-before-retries to memory-pressure.
  unfoldable pub resolve_change : Session Float → Signals → String → Verdict → Verdict
  resolve_change s sig id otherwise =
      if id == "latency-before-retries"
      then (if sig.keywords "latency" && sig.keywords "retry"
          then say_confirmed 78 "Both latency and retry signals present in evidence."
          else say_insufficient 40 "Need corroborating latency and retry evidence.")
      else if id == "config-changed"
      then (if all_configuration_evidence_ruled_out P s
          then say_rejected 88 "Configuration change was investigated and explicitly ruled out."
          else if has_affirmative_configuration_evidence P s
          then say_confirmed 82 "Affirmative configuration change evidence present."
          else if has_category s configuration_changes
          then say_insufficient 45
              "Configuration category present but no affirmative change described."
          else say_rejected 70 "No configuration change evidence found.")
      else if id == "pods-restarted"
      then (if sig.keywords "restart" || has_category s infrastructure_events
          then say_confirmed 84 "Infrastructure or restart evidence present."
          else say_insufficient 35 "No restart evidence yet.")
      else if id == "traffic-shifted"
      then (if sig.keywords "latency" || ltb 0 (sig.categories metrics_category)
          then say_confirmed 75 "Metrics suggest traffic or latency shift."
          else say_insufficient 30 "Need metrics to confirm traffic shift.")
      else if id == "memory-pressure"
      then (if sig.keywords "memory" || sig.keywords "restart"
          then say_confirmed 86 "Memory pressure or restart signals present in evidence."
          else if has_category s infrastructure_events || has_category s metrics_category
          then say_rejected 72 "No memory pressure or OOM signals detected."
          else say_insufficient 30
              "Need metrics and infrastructure evidence to assess memory pressure.")
      else otherwise

  -- The cases of dns-failure to latency-regression.
  unfoldable pub resolve_network : Session Float → Signals → String → Verdict → Verdict
  resolve_network s sig id otherwise =
      if id == "dns-failure"
      then (if sig.keywords "dns"
          then say_confirmed 90 "DNS resolution failure symptoms detected."
          else if has_category s network_events
          then say_rejected 75 "Network events present without DNS failure signals."
          else say_insufficient 30 "Need network evidence to assess DNS failures.")
      else if id == "certificate-expired"
      then (if sig.keywords "cert"
          then say_confirmed 92 "TLS or certificate failure symptoms detected."
          else if has_category s security_events
          then say_rejected 70 "Security events present without certificate expiry signals."
          else say_insufficient 30 "Need security and log evidence to assess certificate health.")
      else if id == "network-healthy"
      then (if sig.keywords "dns" || sig.keywords "network"
          then say_rejected 86 "Network or DNS symptoms detected."
          else if has_category s network_events
          then say_confirmed 78 "Network events show no failure signals."
          else say_insufficient 35 "Need network events to confirm.")
      else if id == "dependency-unavailable"
      then (if sig.keywords "dependency"
          then say_confirmed 88 "Downstream dependency failure symptoms detected."
          else if has_category s trace_events
          then say_rejected 72 "Trace evidence present without dependency failure signals."
          else say_insufficient 30 "Need logs and traces to assess dependency health.")
      else if id == "latency-regression"
      then (if sig.keywords "performance"
            || (sig.keywords "latency"
                && not (sig.keywords "database")
                && not (sig.keywords "retry"))
          then say_confirmed 82 "Performance regression symptoms detected."
          else say_insufficient 35 "Need metrics and traces to confirm a regression.")
      else otherwise

  -- The whole switch. A question that no case knows is left open.
  unfoldable pub verdict : Session Float → Signals → String → Verdict
  verdict s sig id = resolve_deployment s sig id (
      resolve_database s sig id (
        resolve_change s sig id (
          resolve_network s sig id (
            resolve_operations P s sig id (
              resolve_platform P s sig id (
                resolve_data P s sig id (
                  say_insufficient 0
                    ("No explicit resolver for question " <> quote id <> "."))))))))
