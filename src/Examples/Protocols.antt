-- ===== src/Examples/Protocols.antt =====
-- The theorems on the protocol at the small incident.
use incident_investigator.Prelude.{true, is_ok, contains, ok, err, ℕ, ◌≡◌, refl, some, []}
use incident_investigator.Model.Protocol.{QuestionResolution, InvestigationPlan}
use incident_investigator.Model.Session.{has_category}
use incident_investigator.Protocol.Resolving.{resolve_question, resolve_named}
use incident_investigator.Protocol.Resolving.Explicit.{
  Settled, is_ok-resolve_question, resolve_question-Settled,
}
use incident_investigator.Model.Session.{Session}
use incident_investigator.Protocol.Questions.{question_ids, generate_dynamic, ensure_questions}
use incident_investigator.Protocol.Questions.Growth.{Grown, generated-Grown}
use incident_investigator.Protocol.Resolution.{resolve, resolution_of, evidence_for_categories}
use incident_investigator.Protocol.Resolution.Services.{
  resolve_operations, resolve_platform, resolve_data,
}
use incident_investigator.Protocol.Resolution.Cases.{
  verdict, resolve_deployment, resolve_database, resolve_change, resolve_network,
}
use incident_investigator.Protocol.Resolution.Sound.{Resolved, resolve-Resolved}
use incident_investigator.Protocol.Turn.{run, plan_of}
use incident_investigator.Protocol.Turn.Continuity.{Advanced, run-Advanced}
use incident_investigator.Protocol.Turn.Accounts.{Accounts, run-Accounts, run_none_completed}
use incident_investigator.Examples.Inputs.{
  whole_numbers, incident, small_playbook, small_plan, late_deployment, deploy_question,
  deploy_ruling,
}

run-Advanced_example :
    (plan : InvestigationPlan ℕ) × ((run whole_numbers small_playbook incident late_deployment 5
        0).0.plan
      ≡ some plan)
    × Advanced (plan_of whole_numbers small_playbook incident).questions plan.questions
run-Advanced_example = run-Advanced whole_numbers small_playbook incident late_deployment 5 0

run-Accounts_example :
    (plan : InvestigationPlan ℕ) × ((run whole_numbers small_playbook incident late_deployment 5
        0).0.plan
      ≡ some plan)
    × Accounts whole_numbers (run whole_numbers small_playbook incident late_deployment 5 0).0 plan
run-Accounts_example = run-Accounts whole_numbers small_playbook incident late_deployment 5 0

run_none_completed_example :
    (run whole_numbers small_playbook incident late_deployment 5
      0).0.protocol_metrics.evidence_requests_completed
    ≡ 0
run_none_completed_example =
    run_none_completed whole_numbers small_playbook incident late_deployment 5 0

generated-Grown_example :
    Grown small_plan.questions
      (generate_dynamic whole_numbers small_playbook late_deployment
        (ensure_questions whole_numbers small_playbook small_plan).questions
        []).questions
generated-Grown_example = generated-Grown whole_numbers small_playbook late_deployment small_plan []

deploy_question_resolved :
    resolve whole_numbers deploy_question incident late_deployment ≡ some deploy_ruling
unfolding resolve resolution_of verdict evidence_for_categories resolve_deployment resolve_database
    resolve_change resolve_network resolve_operations resolve_platform resolve_data has_category
deploy_question_resolved = refl

resolve-Resolved_example : Resolved deploy_question incident deploy_ruling
resolve-Resolved_example =
    resolve-Resolved whole_numbers deploy_question incident late_deployment deploy_ruling
      deploy_question_resolved

is_ok-resolve_question_example :
    is_ok (
      resolve_question whole_numbers small_playbook "deploy-after-incident" true "seen" 7 incident
        small_plan)
    ≡ contains (question_ids small_plan.questions) "deploy-after-incident"
is_ok-resolve_question_example =
    is_ok-resolve_question whole_numbers "deploy-after-incident" true "seen" 7 small_playbook
      incident small_plan

-- The session, the plan and the resolution that the call leaves.
abbrev settled : Session ℕ × InvestigationPlan ℕ × QuestionResolution ℕ
settled =
    elim (resolve_question whole_numbers small_playbook "deploy-after-incident" true "seen" 7
      incident small_plan) [ ok left ↦ left | err e ↦ (incident, small_plan, deploy_ruling) ]

deployment_settled :
    resolve_question whole_numbers small_playbook "deploy-after-incident" true "seen" 7 incident
      small_plan
    ≡ ok (settled.0, settled.1, settled.2)
unfolding resolve_question resolve_named
deployment_settled = refl

resolve_question-Settled_example :
    Settled "deploy-after-incident" true small_plan settled.1 settled.2
resolve_question-Settled_example =
    resolve_question-Settled whole_numbers "deploy-after-incident" true "seen" 7 small_playbook
      incident settled.0 small_plan settled.1 settled.2 deployment_settled
