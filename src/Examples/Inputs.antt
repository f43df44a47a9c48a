-- ===== src/Examples/Inputs.antt =====
-- A small incident: a checkout service that fails before a deployment, and its graph.
use incident_investigator.Prelude.{
  ℕ, ◌+◌, ◌&&◌, ◌-◌, ◌*◌, ◌/◌, ltb, leb, if◌then◌else◌, String, true, false, none, some, [], ◌∷◌,
}
use incident_investigator.Model.Platform.{Platform}
use incident_investigator.Model.Evidence.{
  Evidence, Hypothesis, HypothesisStatus, deployment_events, metrics_category,
}
use incident_investigator.Model.Graph.{GraphNode, GraphEdge, edge_causes}
use incident_investigator.Model.Protocol.{
  Goal, Question, QuestionStatus, QuestionResolution, ResolutionStatus, InvestigationPlan, Stage,
}
use incident_investigator.Model.Session.{Session, Status}
use incident_investigator.Model.Investigation.{InvestigationState}
use incident_investigator.Model.Signals.{Signals}
use incident_investigator.Protocol.Playbook.{Playbook, PlaybookQuestion}

-- Whole numbers in place of floating-point ones.
abbrev pub whole_numbers : Platform
whole_numbers = record {
  Float = ℕ;
  of_ℕ = λ n. n;
  half = 0;
  neg = λ n. 0;
  plus = λ a b. a + b;
  minus = λ a b. a - b;
  times = λ a b. a * b;
  over = λ a b. a / b;
  trunc = λ a. a;
  lt = ltb;
  le = leb;
  max = λ a b. if ltb a b then b else a;
  min = λ a b. if ltb b a then b else a;
  round = λ a. a;
  abs = λ a. a;
  eq = λ a b. leb a b && leb b a;
  to_lower = λ t. t;
  trim_space = λ t. t;
  quote = λ t. t;
  decimal = λ n. "some";
  whole = λ n. "some";
  clock_time = λ n. "some";
}

abbrev pub deployed : Evidence
deployed = record {
  id = "ev-1";
  timestamp = 40;
  category = deployment_events;
  source = "ci";
  entity = "checkout";
  summary = "release 7 rolled out";
  payload = [];
}

abbrev pub deploy_question : Question ℕ
deploy_question = record {
  id = "deploy-after-incident";
  title = "Did the deployment follow the incident?";
  description = "";
  priority = 90;
  status = QuestionStatus.waiting_for_evidence;
  confidence = 0;
  required_evidence = deployment_events ∷ [];
  supporting_evidence = [];
  contradicting_evidence = [];
  resolution = none;
  depends_on = [];
}

abbrev pub deploy_ruling : QuestionResolution ℕ
deploy_ruling = record {
  question_id = "deploy-after-incident";
  status = ResolutionStatus.confirmed;
  confidence = 90;
  reason = "Deployment occurred after incident onset; deployment is unlikely to be root cause.";
  supporting_evidence = "ev-1" ∷ [];
  contradicting_evidence = [];
  resolved_at = 0;
}

-- A question that the switch of Resolve has no case for.
abbrev pub onset_question : Question ℕ
onset_question = record deploy_question { id = "incident-onset" }

abbrev pub deploy_entry : PlaybookQuestion ℕ
deploy_entry = record {
  id = "deploy-after-incident";
  title = "Did the deployment follow the incident?";
  description = "";
  priority = 90;
  requires = deployment_events ∷ [];
  depends_on = [];
  effects = [];
  trigger_signal = "";
  generates = [];
}

abbrev pub metrics_entry : PlaybookQuestion ℕ
metrics_entry = record deploy_entry {
  id = "database-healthy";
  requires = metrics_category ∷ [];
  depends_on = "deploy-after-incident" ∷ [];
}

abbrev pub small_playbook : Playbook ℕ
small_playbook = record {
  id = "root-cause";
  goal = Goal.root_cause;
  questions = deploy_entry ∷ metrics_entry ∷ [];
}

abbrev pub late_deployment : Signals
late_deployment = record {
  categories = λ c. 0;
  keywords = λ k. false;
  first_deployment = some deployed;
  incident_onset = none;
  recovery = none;
  deploy_before_incident = false;
  deploy_after_incident = true;
  entities = [];
  lock = record {
    present = false;
    entity = "";
    holder_ids = [];
    waiter_ids = [];
    serialized_release = false;
    missing_lock_timeouts = false;
    healthy_database_metrics = false;
  };
}

abbrev pub suspect : Hypothesis ℕ
suspect = record {
  id = "bad-deploy";
  statement = "The release broke checkout.";
  confidence = 60;
  status = HypothesisStatus.proposed;
  rationale = "";
  supporting_evidence = [];
  conflicting_evidence = [];
  reasoning_trace = [];
}

abbrev pub incident : Session ℕ
incident = record {
  id = "inv-1";
  question = "Why does checkout fail?";
  service = "checkout";
  time_window = record { start = 0; end = 0 };
  goal = Goal.root_cause;
  evidence = deployed ∷ [];
  graph = none;
  hypotheses = suspect ∷ [];
  timeline = [];
  contradictions = [];
  blast_radius = record { services = []; regions = []; customers = []; apis = [] };
  required_evidence = [];
  missing_evidence = [];
  confidence = 80;
  progress = 50;
  status = Status.collecting;
  state = InvestigationState.started;
  sufficiency = record {
    can_answer = true;
    overall_confidence = 80;
    coverage = 70;
    blocking_questions = [];
    missing_evidence = [];
    reason = "";
  };
  investigation_progress = record {
    percent_complete = 0;
    confidence = 0;
    coverage = 0;
    remaining_questions = 0;
  };
  strategy = [];
  coverage = record { categories = []; overall = 0 };
  evidence_importance = [];
  reasoning_trace = [];
  journal = [];
  confidence_breakdown = record {
    leading_hypothesis = 0;
    separation = 0;
    corroboration = 0;
    temporal = 0;
    coverage_factor = 0;
    contradiction_penalty = 0;
    overall = 0;
  };
  metrics = record {
    hypothesis_count = 0;
    rejected_hypotheses = 0;
    contradiction_count = 0;
    coverage = 0;
    evidence_count = 0;
    reasoning_iterations = 0;
    planner_iterations = 0;
    average_confidence_gain = 0;
  };
  reasoning_cycles = [];
  plan = none;
  question_graph = record { nodes = []; edges = [] };
  protocol_metrics = record {
    total_questions = 0;
    resolved_questions = 0;
    pending_questions = 0;
    rejected_questions = 0;
    average_resolution_confidence = 0;
    evidence_requests_created = 0;
    evidence_requests_completed = 0;
    average_confidence_gain = 0;
    planner_iterations = 0;
  };
  last_turn = record { resolved_questions = []; new_questions = []; confidence_delta = 0 };
  history = [];
  created_at = 0;
  updated_at = 0;
  prev_hypotheses = [];
}

-- A plan with one question.
abbrev pub small_plan : InvestigationPlan ℕ
small_plan = record {
  id = "plan-inv-1";
  goal = Goal.root_cause;
  current_stage = Stage.planning;
  questions = deploy_question ∷ [];
  active_hypotheses = [];
  completed_questions = [];
  open_questions = [];
  evidence_requests = [];
  confidence = 0;
  resolution_history = [];
  playbook_id = "root-cause";
}

abbrev pub service_node : String → GraphNode
service_node id = record { id = id; type = "service"; label = id; ref_id = id; properties = [] }

abbrev pub cause : String → String → String → GraphEdge ℕ
cause id from to = record {
  id = id;
  from = from;
  to = to;
  type = edge_causes;
  confidence = 80;
  weight = 1;
  timestamp = 0;
  reason = "";
  evidence_refs = [];
  inferred = false;
}
