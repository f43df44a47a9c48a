-- ===== src/Protocol/Playbook.antt =====
-- The types of internal/engine/playbook/playbook.go, and signalTriggered of
-- internal/engine/protocol/engine.go.
use incident_investigator.Prelude.{
  ℕ, ltb, ◌==◌, ◌||◌, String, Bool, false, Option, List, find, is_some, if◌then◌else◌,
}
use incident_investigator.Model.Evidence.{
  Category, configuration_changes, database_events, security_events, network_events, trace_events,
  human_context, metrics_category, infrastructure_events,
}
use incident_investigator.Model.Protocol.{Goal}
use incident_investigator.Model.Signals.{Signals}

abbrev pub effect_decrease : String
effect_decrease = "Decrease"

pub record PlaybookEffect (F : Type 0) : Type 0 where
  pub when_true : Bool
  pub action : String
  pub hypothesis_id : String
  pub amount : F

pub record PlaybookQuestion (F : Type 0) : Type 0 where
  pub id : String
  pub title : String
  pub description : String
  pub priority : ℕ
  pub requires : List Category
  pub depends_on : List String
  pub effects : List (PlaybookEffect F)
  pub trigger_signal : String
  pub generates : List String

pub record Playbook (F : Type 0) : Type 0 where
  pub id : String
  pub goal : Goal
  pub questions : List (PlaybookQuestion F)

-- findPlaybookQuestion
unfoldable pub find_playbook_question :
    {F : Type 0} → Playbook F → String → Option (PlaybookQuestion F)
find_playbook_question pb id = find (λ (pq : PlaybookQuestion _). pq.id == id) pb.questions

-- The switch of signalTriggered.
unfoldable pub trigger_case : Signals → String → Bool
trigger_case sig trigger =
    if trigger == "config"
    then (ltb 0 (sig.categories configuration_changes))
    else if trigger == "restart"
    then (sig.keywords "restart" || sig.keywords "memory")
    else if trigger == "deploy_detected"
    then (is_some sig.first_deployment)
    else if trigger == "database"
    then (sig.keywords "database" || ltb 0 (sig.categories database_events))
    else if trigger == "cert"
    then (sig.keywords "cert" || ltb 0 (sig.categories security_events))
    else if trigger == "dns"
    then (sig.keywords "dns" || ltb 0 (sig.categories network_events))
    else if trigger == "memory"
    then (sig.keywords "memory" || sig.keywords "restart")
    else if trigger == "dependency"
    then (sig.keywords "dependency" || ltb 0 (sig.categories trace_events))
    else if trigger == "external"
    then (sig.keywords "external")
    else if trigger == "auth"
    then (sig.keywords "auth" || ltb 0 (sig.categories security_events))
    else if trigger == "human"
    then (sig.keywords "human" || ltb 0 (sig.categories human_context))
    else if trigger == "capacity"
    then (sig.keywords "capacity" || ltb 0 (sig.categories metrics_category))
    else if trigger == "security"
    then (sig.keywords "security")
    else if trigger == "performance"
    then (sig.keywords "performance" || sig.keywords "latency")
    else if trigger == "infrastructure"
    then (sig.keywords "infrastructure" || ltb 0 (sig.categories infrastructure_events))
    else if trigger == "kubernetes"
    then (sig.keywords "kubernetes" || sig.keywords "restart")
    else if trigger == "container"
    then (sig.keywords "container")
    else if trigger == "storage"
    then (sig.keywords "storage" || ltb 0 (sig.categories infrastructure_events))
    else if trigger == "cache"
    then (sig.keywords "cache")
    else if trigger == "messaging"
    then (sig.keywords "messaging")
    else if trigger == "loadbalancer"
    then (sig.keywords "loadbalancer" || ltb 0 (sig.categories network_events))
    else if trigger == "apicontract"
    then (sig.keywords "apicontract")
    else if trigger == "datacorruption"
    then (sig.keywords "datacorruption")
    else if trigger == "clock"
    then (sig.keywords "clock")
    else if trigger == "featureflag"
    then (sig.keywords "featureflag" || ltb 0 (sig.categories configuration_changes))
    else if trigger == "regional"
    then (sig.keywords "regional")
    else if trigger == "dr"
    then (sig.keywords "dr")
    else if trigger == "observability"
    then (sig.keywords "observability")
    else false

-- signalTriggered
unfoldable pub signal_triggered : Signals → String → Bool
unfolding trigger_case
signal_triggered sig trigger = sig.keywords trigger || trigger_case sig trigger
