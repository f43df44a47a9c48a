-- ===== src/Engine/Contradictions.antt =====
-- internal/engine/contradiction.go
use incident_investigator.Prelude.{
  ltb, String, Bool, not, ◌&&◌, Option, none, some, List, [], ◌∷◌, ◌++◌, ◌<>◌, is_some,
  if◌then◌else◌,
}
use incident_investigator.Prelude.Dict.{Dict, lookup, insert}
use incident_investigator.Model.Platform.{Platform}
use incident_investigator.Model.Evidence.{Evidence, Contradiction}
use incident_investigator.Model.Signals.{Signals}
use incident_investigator.Signals.{matches_any, haystack}
use incident_investigator.Signals.Lock.{sorted_by_time}

abbrev pub stated_if : Bool → Contradiction → List Contradiction
stated_if test c = if test then c ∷ [] else []

-- The second check of Detect.
unfoldable pub early_recovery : Option Evidence → Option Evidence → List Contradiction
early_recovery (some r) (some i) = stated_if (ltb r.timestamp i.timestamp) (record {
  id = "contradiction-recovery-before-incident";
  description =
      "Recovery evidence is timestamped before the incident began (impossible sequence; check clocks).";
  severity = "medium";
  evidence_refs = r.id ∷ i.id ∷ [];
})
early_recovery none i = []
early_recovery (some r) none = []

-- The key under which the fourth check finds evidence again.
abbrev pub duplicate_key : Evidence → String
duplicate_key e = e.category <> "|" <> e.entity <> "|" <> e.summary

module _ (P : Platform) where
  open P use {Float, quote, clock_time}

  -- The first check.
  unfoldable pub late_deployment_clash :
      Bool → Option Evidence → Option Evidence → List Contradiction
  late_deployment_clash after (some d) (some i) = stated_if after (record {
    id = "contradiction-deploy-after-incident";
    description =
        "Deployment "
        <> quote d.summary
        <> " occurred at "
        <> clock_time d.timestamp
        <> ", after the incident began at "
        <> clock_time i.timestamp
        <> "; it cannot be the root cause.";
    severity = "high";
    evidence_refs = d.id ∷ i.id ∷ [];
  })
  late_deployment_clash after none i = []
  late_deployment_clash after (some d) none = []

  -- The third check.
  unfoldable pub no_restart : Signals → Option Evidence → List Contradiction
  unfolding haystack matches_any
  no_restart sig none = []
  no_restart sig (some dep) =
      stated_if
        (matches_any (haystack P dep) ("success" ∷ "succeeded" ∷ "completed" ∷ "healthy" ∷ [])
          && is_some sig.incident_onset
          && not (sig.keywords "restart"))
        (record {
          id = "contradiction-deploy-success-no-restart";
          description =
              "Deployment reported success but no pod restart/rollout was observed despite the incident; the change may not have taken effect.";
          severity = "low";
          evidence_refs = dep.id ∷ [];
        })

  -- The loop of the fourth check, with the map `seen`.
  unfoldable pub duplicates : Dict String → List Evidence → List Contradiction
  duplicates seen [] = []
  duplicates seen (e ∷ es) =
      let known = lookup (duplicate_key e) seen in
      let later =
        duplicates (if is_some known then seen else insert (duplicate_key e) e.id seen) es in
      elim known [
        | none ↦ later
        | some first ↦
            record {
              id = "contradiction-duplicate-" <> e.id;
              description =
                  "Duplicate evidence detected: " <> quote e.summary <> " appears more than once.";
              severity = "low";
              evidence_refs = first ∷ e.id ∷ [];
            }
            ∷ later
      ]

  -- HeuristicContradictionDetector.Detect
  unfoldable pub detect_contradictions : List Evidence → Signals → List Contradiction
  unfolding late_deployment_clash early_recovery no_restart duplicates sorted_by_time
  detect_contradictions evidence sig =
      late_deployment_clash sig.deploy_after_incident sig.first_deployment sig.incident_onset
      ++ early_recovery sig.recovery sig.incident_onset
      ++ no_restart sig sig.first_deployment
      ++ duplicates [] (sorted_by_time evidence)
