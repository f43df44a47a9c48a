-- ===== src/Signals/Analysis.antt =====
-- Analyze of internal/signals/signals.go.
use incident_investigator.Prelude.{
  ℕ, suc, leb, String, Bool, true, false, not, ◌&&◌, ◌||◌, Option, none, some, List, [], ◌∷◌, ◌==◌,
  if◌then◌else◌,
}
use incident_investigator.Prelude.Dict.{Dict, lookup, insert}
use incident_investigator.Model.Platform.{Platform}
use incident_investigator.Model.Evidence.{
  Evidence, alert_events, application_logs, metrics_category, trace_events, deployment_events,
  configuration_changes,
}
use incident_investigator.Model.Signals.{Signals}
use incident_investigator.Signals.{matches_any, haystack}
use incident_investigator.Signals.Keywords.{keyword_table, keywords_of}
use incident_investigator.Signals.Negation.{evidence_rules_out_deploy, evidence_rules_out_config}
use incident_investigator.Signals.Lock.{sorted_by_time, analyze_lock_contention, no_contention}

-- looksLikeSymptom
unfoldable pub looks_like_symptom : Evidence → String → Bool
unfolding matches_any keywords_of
looks_like_symptom e text =
    if e.category == alert_events
    then true
    else if (e.category == application_logs)
        || (e.category == metrics_category)
        || (e.category == trace_events)
    then matches_any text (keywords_of "error") || matches_any text (keywords_of "latency")
    else if (e.category == deployment_events) || (e.category == configuration_changes)
    then false
    else matches_any text (keywords_of "error")

-- The first evidence stays.
abbrev pub first_of : Option Evidence → Bool → Evidence → Option Evidence
first_of (some e) hit next = some e
first_of none true next = some next
first_of none false next = none

abbrev pub count_or_zero : Option ℕ → ℕ
count_or_zero none = 0
count_or_zero (some n) = n

-- sig.Entities[e.Entity]++
unfoldable pub count_entity : String → Dict ℕ → Dict ℕ
count_entity entity m =
    if entity == "" then m else insert entity (suc (count_or_zero (lookup entity m))) m

-- Whether the deployment did not follow the onset.
unfoldable pub deployed_by_onset : Option Evidence → Option Evidence → Option Bool
deployed_by_onset (some d) (some i) = some (leb d.timestamp i.timestamp)
deployed_by_onset none i = none
deployed_by_onset (some d) none = none

abbrev pub no_signals : Signals
no_signals = record {
  categories = λ c. 0;
  keywords = λ name. false;
  first_deployment = none;
  incident_onset = none;
  recovery = none;
  deploy_before_incident = false;
  deploy_after_incident = false;
  entities = [];
  lock = no_contention;
}

module _ (P : Platform) where
  -- The loop over Keywords for one piece of evidence: the names that it turns on.
  unfoldable pub turns_on : Evidence → Dict (List String) → String → Bool
  unfolding haystack matches_any evidence_rules_out_deploy evidence_rules_out_config
  turns_on e [] name = false
  turns_on e ((at, words) ∷ table) name =
      ((at == name)
        && not ((at == "deployment") && evidence_rules_out_deploy P e)
        && not ((at == "config") && evidence_rules_out_config P e)
        && matches_any (haystack P e) words)
      || turns_on e table name

  unfoldable pub is_recovery : Evidence → Bool
  unfolding haystack matches_any keywords_of
  is_recovery e =
      matches_any (haystack P e) (keywords_of "rollback")
      || matches_any (haystack P e) (keywords_of "recovery")

  unfoldable pub is_deploy : Evidence → Bool
  unfolding is_recovery evidence_rules_out_deploy haystack matches_any keywords_of
  is_deploy e =
      let ruled_out = evidence_rules_out_deploy P e in
      let deploys = not (is_recovery e) && not ruled_out && (e.category == deployment_events) in
      if not deploys && not (e.category == configuration_changes) && not ruled_out
      then matches_any (haystack P e) (keywords_of "deployment")
      else deploys

  -- One turn of the loop of Analyze.
  unfoldable pub observe : Signals → Evidence → Signals
  unfolding count_entity is_deploy is_recovery looks_like_symptom turns_on keyword_table haystack
  observe sig e = record sig {
    categories = λ c. let count = sig.categories c in if c == e.category then suc count else count;
    keywords = λ name. sig.keywords name || turns_on e keyword_table name;
    entities = count_entity e.entity sig.entities;
    first_deployment = first_of sig.first_deployment (is_deploy e) e;
    recovery = first_of sig.recovery (is_recovery e) e;
    incident_onset =
        first_of sig.incident_onset (not (is_recovery e) && looks_like_symptom e (haystack P e)) e;
  }

  unfoldable pub observe_all : Signals → List Evidence → Signals
  unfolding observe
  observe_all sig [] = sig
  observe_all sig (e ∷ es) = observe_all (observe sig e) es

  -- Analyze
  unfoldable pub analyze : List Evidence → Signals
  unfolding observe_all deployed_by_onset analyze_lock_contention sorted_by_time
  analyze evidence =
      let ordered = sorted_by_time evidence in
      let sig = observe_all no_signals ordered in
      record sig {
        deploy_before_incident = elim (deployed_by_onset sig.first_deployment sig.incident_onset) [
          | none ↦ false
          | some by ↦ by
        ];
        deploy_after_incident = elim (deployed_by_onset sig.first_deployment sig.incident_onset) [
          | none ↦ false
          | some by ↦ not by
        ];
        lock = analyze_lock_contention P ordered;
      }
