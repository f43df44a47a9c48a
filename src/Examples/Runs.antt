-- ===== src/Examples/Runs.antt =====
-- The theorems on the runtime at small inputs.
use incident_investigator.Prelude.{ℕ, ◌≡◌, refl, true, [], ◌∷◌, some, ok}
use incident_investigator.Prelude.Dict.{Dict, lookup, insert, AllEntries}
use incident_investigator.Model.Session.{Session, is_completed}
use incident_investigator.Runtime.Recompute.{recompute}
use incident_investigator.StateMachine.Order.{Placed}
use incident_investigator.Runtime.States.{recompute-Placed}
use incident_investigator.Runtime.Frozen.{Keeps, Later-Keeps, now, then_step}
use incident_investigator.Runtime.Recompute.Steps.{Proposed, steps, recompute-Proposed}
use incident_investigator.Runtime.Frame.{given, given-recompute}
use incident_investigator.Runtime.Lifecycle.{is_over, recompute_stays_completed}
use incident_investigator.Runtime.Starting.{start}
use incident_investigator.Runtime.Submitting.{submit, submit_to}
use incident_investigator.Runtime.Submitting.Batches.{Ingested}
use incident_investigator.Runtime.Intake.{error_of, submit_to-Ingested}
use incident_investigator.Runtime.Operations.{get_session, answer_question, finish}
use incident_investigator.Runtime.Completion.{finish_completes}
use incident_investigator.Runtime.Soundness.{Sound}
use incident_investigator.Runtime.Reachable.{
  started, submitted, ended, initial, after, Reachable-Sound,
}
use incident_investigator.Examples.Inputs.{whole_numbers, small_playbook, incident, deployed}
use incident_investigator.Runtime.Isolation.{lookup_other-Step}
use incident_investigator.Runtime.Replies.{Reported, itself, updated, replies-Reported}
use incident_investigator.Examples.Reasoning.{
  ended_incident, small_setup, noon, fresh_id, batch, asked, opening_input,
}

given-recompute_example : given (recompute whole_numbers small_setup noon incident) ≡ given incident
given-recompute_example = given-recompute whole_numbers small_setup noon incident

recompute_stays_completed_example :
    is_completed (recompute whole_numbers small_setup noon ended_incident).status ≡ true
unfolding is_over
recompute_stays_completed_example =
    recompute_stays_completed whole_numbers small_setup noon ended_incident refl

submit_to-Ingested_example : Ingested whole_numbers fresh_id 100 0 (deployed ∷ []) batch (
  (submit_to whole_numbers small_setup fresh_id noon batch incident).0.evidence,
  error_of (submit_to whole_numbers small_setup fresh_id noon batch incident).1,
)
submit_to-Ingested_example =
    submit_to-Ingested whole_numbers small_setup fresh_id noon batch incident refl

abbrev ended_store : Dict (Session ℕ)
ended_store = ("inv-1", ended_incident) ∷ []

Later-Keeps_example :
    Keeps whole_numbers "inv-1" ended_incident
      (submit whole_numbers small_setup "inv-1" fresh_id noon batch
        (finish whole_numbers small_setup "inv-1" noon ended_store).0).0
unfolding lookup
Later-Keeps_example =
    Later-Keeps whole_numbers small_setup {m = ended_store} "inv-1" ended_incident refl refl (
      then_step (then_step now (ended "inv-1" noon) refl) (submitted "inv-1" fresh_id noon batch)
        refl)

recompute-Placed_example :
    Placed whole_numbers 70
      (recompute whole_numbers small_setup noon incident)
      (recompute whole_numbers small_setup noon incident).state
recompute-Placed_example = recompute-Placed whole_numbers small_setup noon incident

recompute-Proposed_example :
    Proposed whole_numbers (steps whole_numbers (recompute whole_numbers small_setup noon incident))
recompute-Proposed_example =
    recompute-Proposed whole_numbers small_setup noon incident small_playbook refl

abbrev open_store : Dict (Session ℕ)
open_store = ("inv-1", incident) ∷ []

finish_completes_example :
    (t : Session ℕ) × (finish whole_numbers small_setup "inv-1" noon open_store
      ≡ (insert "inv-1" t open_store, ok t))
    × (lookup "inv-1" (insert "inv-1" t open_store) ≡ some t)
    × (is_completed t.status ≡ true)
unfolding lookup
finish_completes_example =
    finish_completes whole_numbers small_setup "inv-1" noon open_store incident refl

Reachable-Sound_example :
    AllEntries
      (Sound whole_numbers small_setup)
      (submit whole_numbers small_setup "inv-1" fresh_id noon batch
        (start whole_numbers small_setup "inv-1" noon opening_input []).0).0
Reachable-Sound_example = Reachable-Sound whole_numbers small_setup (
    after (after initial (started "inv-1" noon opening_input))
      (submitted "inv-1" fresh_id noon batch))

-- Two sessions, of which a batch is for the first.
abbrev two_sessions : Dict (Session ℕ)
two_sessions = ("inv-1", incident) ∷ ("inv-2", record incident { id = "inv-2" }) ∷ []

lookup_other-Step_example :
    lookup "inv-2" (submit whole_numbers small_setup "inv-1" fresh_id noon batch two_sessions).0
    ≡ lookup "inv-2" two_sessions
lookup_other-Step_example =
    lookup_other-Step whole_numbers small_setup {m = two_sessions}
      (submitted "inv-1" fresh_id noon batch) "inv-2" refl

replies-Reported_example :
    Reported itself "inv-1" two_sessions
      (start whole_numbers small_setup "inv-1" noon opening_input two_sessions)
    × Reported itself "inv-1" two_sessions
        (submit whole_numbers small_setup "inv-1" fresh_id noon batch two_sessions)
    × Reported itself "inv-1" two_sessions
        (get_session whole_numbers small_setup "inv-1" noon two_sessions)
    × Reported updated "inv-1" two_sessions
        (answer_question whole_numbers small_setup noon asked two_sessions)
    × Reported itself "inv-1" two_sessions
        (finish whole_numbers small_setup "inv-1" noon two_sessions)
replies-Reported_example =
    replies-Reported whole_numbers small_setup "inv-1" fresh_id noon opening_input batch asked
      two_sessions
