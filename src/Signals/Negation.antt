-- ===== src/Signals/Negation.antt =====
-- internal/signals/negation.go
use incident_investigator.Prelude.{
  String, Bool, false, not, ◌&&◌, ◌||◌, Option, none, some, List, [], ◌∷◌, ◌==◌, any, all,
  if◌then◌else◌,
}
use incident_investigator.Prelude.Dict.{lookup}
use incident_investigator.Model.Platform.{Platform}
use incident_investigator.Model.Evidence.{
  Evidence, Value, flag, chars, other, number, deployment_events, configuration_changes,
}
use incident_investigator.Model.Session.{Session}
use incident_investigator.Signals.{matches_any, config_keywords, haystack}

abbrev pub deploy_keys : List String
deploy_keys = "new_deploy" ∷ "deployed" ∷ "deployment_occurred" ∷ "deploy_occurred" ∷ []

abbrev pub deploy_phrases : List String
deploy_phrases =
    "no deployment" ∷ "no deploy" ∷ "not deployed" ∷ "without deployment" ∷ "deployment ruled out"
    ∷ "ruled out deployment" ∷ "no recent deploy" ∷ "no deployment in" ∷ "deploy: false"
    ∷ "new_deploy: false" ∷ []

abbrev pub config_keys : List String
config_keys = "config_changed" ∷ "configuration_changed" ∷ "config_change" ∷ []

abbrev pub config_phrases : List String
config_phrases =
    "no config change" ∷ "no configuration change" ∷ "not config" ∷ "config ruled out"
    ∷ "ruled out config" ∷ "without config change" ∷ "config_changed: false"
    ∷ "configuration_changed: false" ∷ []

module _ (P : Platform) where
  open P use {to_lower, trim_space}

  abbrev negative_text : String → Bool
  negative_text t = t == "false" || t == "no" || t == "0"

  -- The type switch of payloadNegates.
  unfoldable pub value_negates : Option Value → Bool
  value_negates none = false
  value_negates (some (flag b)) = not b
  value_negates (some (chars t)) = negative_text (to_lower (trim_space t))
  value_negates (some (other t)) = false
  value_negates (some (number n t)) = false

  -- payloadNegates
  unfoldable pub payload_negates : Evidence → List String → Bool
  unfolding value_negates
  payload_negates e ks = any (λ k. value_negates (lookup k e.payload)) ks

  -- summaryNegates
  unfoldable pub summary_negates : String → List String → Bool
  summary_negates t phrases = matches_any (to_lower t) phrases

  -- EvidenceRulesOutDeploy
  unfoldable pub evidence_rules_out_deploy : Evidence → Bool
  unfolding payload_negates summary_negates
  evidence_rules_out_deploy e =
      (e.category == deployment_events)
      && (payload_negates e deploy_keys || summary_negates (haystack P e) deploy_phrases)

  -- EvidenceRulesOutConfig
  unfoldable pub evidence_rules_out_config : Evidence → Bool
  unfolding payload_negates summary_negates
  evidence_rules_out_config e =
      (e.category == configuration_changes)
      && (payload_negates e config_keys || summary_negates (haystack P e) config_phrases)

  -- The loops of AllDeploymentEvidenceRuledOut and AllConfigurationEvidenceRuledOut: there is
  -- evidence of the category, and all of it is ruled out.
  unfoldable pub all_ruled_out : String → (Evidence → Bool) → List Evidence → Bool
  all_ruled_out category ruled_out es =
      any (λ e. e.category == category) es
      && all (λ e. not (e.category == category) || ruled_out e) es

  -- The two tests in the loop of HasAffirmativeConfigurationEvidence.
  unfoldable pub affirms_config : Evidence → Bool
  affirms_config e =
      if e.category == configuration_changes
      then not (evidence_rules_out_config e)
      else not (evidence_rules_out_config e) && matches_any (haystack P e) config_keywords

  module _ {F : Type 0} where
    -- AllDeploymentEvidenceRuledOut
    unfoldable pub all_deployment_evidence_ruled_out : Session F → Bool
    unfolding all_ruled_out
    all_deployment_evidence_ruled_out s =
        all_ruled_out deployment_events evidence_rules_out_deploy s.evidence

    -- AllConfigurationEvidenceRuledOut
    unfoldable pub all_configuration_evidence_ruled_out : Session F → Bool
    unfolding all_ruled_out
    all_configuration_evidence_ruled_out s =
        all_ruled_out configuration_changes evidence_rules_out_config s.evidence

    -- HasAffirmativeDeploymentEvidence
    unfoldable pub has_affirmative_deployment_evidence : Session F → Bool
    has_affirmative_deployment_evidence s =
        any (λ e. (e.category == deployment_events) && not (evidence_rules_out_deploy e)) s.evidence

    -- HasAffirmativeConfigurationEvidence
    unfoldable pub has_affirmative_configuration_evidence : Session F → Bool
    unfolding affirms_config
    has_affirmative_configuration_evidence s = any affirms_config s.evidence
