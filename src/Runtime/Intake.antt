-- ===== src/Runtime/Intake.antt =====
-- What Submit does to the evidence of a session.
use incident_investigator.Prelude.{
  ◌≡◌, refl, ap, sym, subst, ℕ, String, false, Option, none, some, List, ok, err, length,
}
use incident_investigator.Model.Platform.{Platform}
use incident_investigator.Model.Evidence.{Evidence}
use incident_investigator.Model.Session.{Session, is_completed, add_history, add_journal}
use incident_investigator.Runtime.Sessions.{RuntimeError, Outcome}
use incident_investigator.Runtime.Recompute.{Setup, Moment}
use incident_investigator.Runtime.Frame.{Given, given, given-recompute}
use incident_investigator.Runtime.Submitting.{
  submit_to, after_ingest, note_batch, ingest, evidence_ids,
}
use incident_investigator.Runtime.Submitting.Batches.{Ingested, ingest-Ingested}

abbrev pub error_of : {A : Type 0} → Outcome A → Option RuntimeError
error_of (ok a) = none
error_of (err e) = some e

module _ (P : Platform) (R : Setup P) where
  after_ingest_lem :
      (w : Moment P.Float) (count : ℕ) (s : Session P.Float)
      (out : List Evidence × Option RuntimeError)
      → ((after_ingest P R w count s out).0.evidence, error_of (after_ingest P R w count s out).1)
        ≡ out
  unfolding after_ingest note_batch add_history add_journal given
  after_ingest_lem w count s (stored, some error) = refl
  after_ingest_lem w count s (stored, none) =
      ap (λ (g : Given). (g.evidence, none))
        (given-recompute P R w (note_batch P R w.now count stored s))

  -- Submit on a session that is not completed stores a first part of the batch, in its order, behind
  -- the evidence that was there. Each item of that part has a summary that is not blank, and an
  -- identifier that neither the evidence before the batch nor an item before it has. Submit fails
  -- exactly where a rest is left, which begins with an item that is nil, that has a blank summary, or
  -- whose identifier is known by then. What is stored before the failure stays in the session.
  pub submit_to-Ingested :
      (fresh : ℕ → String) (w : Moment P.Float) (items : List (Option Evidence))
      (s : Session P.Float)
      → is_completed s.status ≡ false
      → Ingested P fresh w.now 0 s.evidence items
          ((submit_to P R fresh w items s).0.evidence, error_of (submit_to P R fresh w items s).1)
  unfolding submit_to
  submit_to-Ingested fresh w items s h = rw h (
      subst (Ingested P fresh w.now 0 s.evidence items)
        (sym (
          after_ingest_lem w (length items) s
            (ingest P fresh w.now 0 (evidence_ids s) s.evidence items)))
        (ingest-Ingested P fresh w.now 0 (evidence_ids s) s.evidence items refl))
