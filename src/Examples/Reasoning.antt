-- ===== src/Examples/Reasoning.antt =====
-- The theorems on reasoners and engines at small inputs, and the inputs of runs of the runtime.
use incident_investigator.Prelude.{
  ℕ, contains, ◌||◌, leb, ◌≡◌, refl, arith, true, ◌==◌, [], ◌∷◌, some, none, ok, String, Option,
  List, All, map, if◌then◌else◌,
}
use incident_investigator.Model.Evidence.{Evidence}
use incident_investigator.Model.Protocol.{Goal, Question, QuestionStatus}
use incident_investigator.Model.Reasoning.{
  ReasoningAction, ActionType, bare_action, OrchestrationStrategy,
}
use incident_investigator.Model.Investigation.{EvidenceImportance}
use incident_investigator.Model.Session.{Session, Status}
use incident_investigator.Reasoning.Reasoners.{
  Reasoner, empty_reasoners, register_reasoner, get_reasoner, list_reasoners,
}
use incident_investigator.Reasoning.Reasoners.Catalogue.{
  name_of, Listing, Registered, empty_reasoners-Registered, register_reasoner_lem,
}
use incident_investigator.Reasoning.Applier.Loop.{apply}
use incident_investigator.Reasoning.Applier.Accounts.{Turns, opening, apply-Turns}
use incident_investigator.Reasoning.Applier.Closed.{question_in, apply_keeps_closed}
use incident_investigator.Reasoning.Applier.Identifiers.{DistinctPlan, apply-DistinctPlan}
use incident_investigator.Reasoning.Validator.{find_question, is_closed}
use incident_investigator.Engine.Planning.{build_timeline, plan_requests}
use incident_investigator.Engine.Planning.Timelines.{Chronicle, build_timeline-Chronicle}
use incident_investigator.Engine.Planning.Plans.{Planned, plan_requests-Planned}
use incident_investigator.Engine.Importance.{score_importance}
use incident_investigator.Engine.Importance.Bounds.{Numbers, score_importance-Within}
use incident_investigator.Runtime.Recompute.{Setup, Moment}
use incident_investigator.Runtime.Starting.{StartInput}
use incident_investigator.Runtime.Operations.{ResolveQuestionInput}
use incident_investigator.Examples.Inputs.{
  whole_numbers, incident, late_deployment, deployed, deploy_question, small_plan, small_playbook,
  suspect,
}

-- A reasoner that proposes to resolve one question twice and to raise one hypothesis.
abbrev resolves : String → ReasoningAction ℕ
resolves id = record (bare_action 0 ActionType.resolve_question) { question_id = id }

abbrev raises : ReasoningAction ℕ
raises = record (bare_action 0 ActionType.increase_hypothesis_confidence) {
  hypothesis_id = "bad-deploy";
  delta = 10;
}

abbrev proposals : List (ReasoningAction ℕ)
proposals = resolves "deploy-after-incident" ∷ resolves "deploy-after-incident" ∷ raises ∷ []

abbrev planned_incident : Session ℕ
planned_incident = record incident { plan = some small_plan }

abbrev closed_question : Question ℕ
closed_question = record deploy_question { status = QuestionStatus.answered }

abbrev answered_incident : Session ℕ
answered_incident = record incident {
  plan = some (record small_plan { questions = closed_question ∷ [] });
}

abbrev pub ended_incident : Session ℕ
ended_incident = record incident { status = Status.completed }

abbrev eager : Reasoner ℕ
eager = record {
  name = "eager";
  priority = 60;
  supports = λ s. true;
  analyze = λ inv. ok (
      some (record {
        reasoner = "eager";
        confidence = 0;
        actions = proposals;
        findings = [];
        metrics = record {
          execution_time = 0;
          questions_resolved = 0;
          questions_created = 0;
          hypotheses_created = 0;
          hypotheses_rejected = 0;
          average_confidence_delta = 0;
          contradictions_found = 0;
          recommendations_created = 0;
          graph_nodes_created = 0;
          graph_edges_created = 0;
          actions_proposed = 0;
        };
      }));
}

abbrev pub small_setup : Setup whole_numbers
small_setup = record {
  reasoners = register_reasoner eager empty_reasoners;
  strategy = OrchestrationStrategy.sequential;
  playbook_for = λ goal. some small_playbook;
  confidence = λ s sig hyps clashes progress. 80;
  sufficiency = λ s sig coverage. s.sufficiency;
  calibrate = λ finished s. none;
  high_confidence = 70;
  confidence_threshold = 70;
  progress_threshold = 70;
}

abbrev pub noon : Moment ℕ
noon = record {
  now = 100;
  started = 100;
  ended = 105;
  calibrated = 106;
  cycle_id = "cycle-1";
  elapsed = λ name. 1;
  finishing_order = λ results. results;
}

abbrev pub fresh_id : ℕ → String
fresh_id n = "ev-new"

abbrev pub blank_evidence : Evidence
blank_evidence = record deployed { id = "ev-3"; summary = "" }

abbrev pub batch : List (Option Evidence)
batch = some (record deployed { id = "ev-2" }) ∷ some blank_evidence ∷ []

abbrev pub asked : ResolveQuestionInput
asked = record {
  session_id = "inv-1";
  question_id = "deploy-after-incident";
  confirmed = true;
  reason = "seen";
}

abbrev pub opening_input : StartInput
opening_input = record {
  question = "Why does checkout fail?";
  service = "checkout";
  time_window = record { start = 0; end = 0 };
  goal = Goal.unset_goal;
}

whole_order : Numbers whole_numbers
whole_order = record {
  constants = λ m n h. h;
  constant = λ n. ground arith;
  shares = λ m n. ground arith;
  total = λ a b i j h. ground arith;
}

apply-Turns_example :
    Turns whole_numbers proposals
      (opening whole_numbers planned_incident none)
      (apply whole_numbers planned_incident none proposals)
apply-Turns_example = apply-Turns whole_numbers planned_incident none proposals

apply_keeps_closed_example :
    question_in
      (apply whole_numbers answered_incident none proposals).session
      "deploy-after-incident"
    ≡ some closed_question
unfolding question_in find_question is_closed
apply_keeps_closed_example =
    apply_keeps_closed whole_numbers answered_incident none proposals "deploy-after-incident"
      closed_question refl refl

apply-DistinctPlan_example :
    DistinctPlan (apply whole_numbers planned_incident none proposals).session.plan
apply-DistinctPlan_example =
    apply-DistinctPlan whole_numbers planned_incident none proposals ((refl, tt), tt)

register_reasoner_example :
    (get_reasoner whole_numbers "eager" (register_reasoner eager empty_reasoners) ≡ (
      if "eager" == "eager" then ok eager else get_reasoner whole_numbers "eager" empty_reasoners))
    × (contains (map name_of (list_reasoners (register_reasoner eager empty_reasoners))) "eager" ≡ (
        ("eager" == "eager")
        || contains (map name_of (list_reasoners (empty_reasoners {F = ℕ}))) "eager"))
    × Listing whole_numbers (register_reasoner eager empty_reasoners)
    × Registered (register_reasoner eager empty_reasoners)
register_reasoner_example =
    register_reasoner_lem whole_numbers eager empty_reasoners "eager" empty_reasoners-Registered

build_timeline-Chronicle_example :
    Chronicle (deployed ∷ blank_evidence ∷ []) (build_timeline (deployed ∷ blank_evidence ∷ []))
build_timeline-Chronicle_example = build_timeline-Chronicle (deployed ∷ blank_evidence ∷ [])

plan_requests-Planned_example : Planned (plan_requests whole_numbers incident late_deployment)
plan_requests-Planned_example = plan_requests-Planned whole_numbers incident late_deployment

score_importance-Within_example :
    (map
        (λ (i : EvidenceImportance ℕ). i.evidence_id)
        (score_importance whole_numbers incident late_deployment (suspect ∷ []))
      ≡ "ev-1" ∷ [])
    × All
        (λ (i : EvidenceImportance ℕ). (leb 1 i.score ≡ true) × (leb i.score 100 ≡ true))
        (score_importance whole_numbers incident late_deployment (suspect ∷ []))
score_importance-Within_example =
    score_importance-Within whole_numbers whole_order incident late_deployment (suspect ∷ [])
