-- ===== src/Runtime/Submitting.antt =====
-- internal/runtime/runtime.go: Submit.
pub mod Batches
use incident_investigator.Prelude.{
  ℕ, suc, ltb, String, not, ◌&&◌, ◌||◌, Option, none, some, List, [], ◌∷◌, ◌++◌, ◌==◌, ◌<>◌, map,
  contains, length, ok, err, if◌then◌else◌,
}
use incident_investigator.Prelude.Dict.{Dict}
use incident_investigator.Model.Platform.{Platform}
use incident_investigator.Model.Evidence.{Evidence, custom_category, is_valid_category}
use incident_investigator.Model.Session.{Session, is_completed, add_history, add_journal}
use incident_investigator.Runtime.Sessions.{RuntimeError, Outcome, with_session}
use incident_investigator.Runtime.Recompute.{Setup, Moment, recompute}

-- normalizeEvidence. `fresh` is what newID gives.
unfoldable pub normalize_evidence : String → ℕ → Evidence → Evidence
unfolding is_valid_category
normalize_evidence fresh now e = record e {
  id = if e.id == "" then fresh else e.id;
  timestamp = if ltb 0 e.timestamp then e.timestamp else now;
  source = if e.source == "" then "provided_by_client" else e.source;
  category =
      if (e.category == "") || not (is_valid_category e.category)
      then custom_category
      else e.category;
}

module _ {F : Type 0} where
  -- existingEvidenceIDs
  abbrev pub evidence_ids : Session F → List String
  evidence_ids s = map (λ (e : Evidence). e.id) s.evidence

module _ (P : Platform) where
  open P use {Float, trim_space, decimal}

  -- pluralizeCount
  unfoldable pub pluralize_count : ℕ → String → String
  pluralize_count n noun =
      if ltb 0 n && ltb n 2 then "1 " <> noun else decimal n <> " " <> noun <> "s"

  -- The loop of Submit: the evidence that it has stored when it ends, and its error. `seen` holds the
  -- ids of the session, and `fresh n` is the identifier that newID draws at the n-th item.
  unfoldable pub ingest :
      (ℕ → String)
      → ℕ
      → ℕ
      → List String
      → List Evidence
      → List (Option Evidence)
      → List Evidence × Option RuntimeError
  unfolding normalize_evidence
  ingest fresh now n seen stored [] = (stored, none)
  ingest fresh now n seen stored (none ∷ items) = (stored, some RuntimeError.invalid_evidence)
  ingest fresh now n seen stored (some raw ∷ items) =
      let e = normalize_evidence (fresh n) now raw in
      let rest = ingest fresh now (suc n) (seen ++ e.id ∷ []) (stored ++ e ∷ []) items in
      if trim_space e.summary == ""
      then (stored, some RuntimeError.invalid_evidence)
      else if contains seen e.id
      then (stored, some (RuntimeError.duplicate_evidence_id e.id))
      else rest

module _ (P : Platform) (R : Setup P) where
  open P use {Float}

  -- The session with the evidence, and its records of it.
  unfoldable pub note_batch : ℕ → ℕ → List Evidence → Session Float → Session Float
  unfolding add_history add_journal pluralize_count
  note_batch now count stored s =
      add_journal "evidence_submitted" (pluralize_count P count "item") s.confidence now (
        add_history "evidence_submitted" (pluralize_count P count "evidence item") now
          (record s { evidence = stored }))

  -- What Submit does after its loop.
  unfoldable pub after_ingest :
      Moment Float
      → ℕ
      → Session Float
      → List Evidence × Option RuntimeError
      → Session Float × Outcome (Session Float)
  unfolding note_batch recompute
  after_ingest w count s (stored, some error) = (record s { evidence = stored }, err error)
  after_ingest w count s (stored, none) =
      let done : Session Float = record (recompute P R w (note_batch w.now count stored s)) {
        updated_at = w.now;
      } in
      (done, ok done)

  -- The function that Submit passes to WithSession.
  unfoldable pub submit_to :
      (ℕ → String)
      → Moment Float
      → List (Option Evidence)
      → Session Float
      → Session Float × Outcome (Session Float)
  unfolding ingest after_ingest
  submit_to fresh w items s =
      if is_completed s.status
      then (s, err RuntimeError.session_completed)
      else after_ingest w (length items) s
          (ingest P fresh w.now 0 (evidence_ids s) s.evidence items)

  -- Submit
  unfoldable pub submit :
      String
      → (ℕ → String)
      → Moment Float
      → List (Option Evidence)
      → Dict (Session Float)
      → Dict (Session Float) × Outcome (Session Float)
  unfolding with_session submit_to
  submit id fresh w [] sessions = (sessions, err RuntimeError.empty_evidence)
  submit id fresh w (item ∷ items) sessions =
      with_session id (submit_to fresh w (item ∷ items)) sessions
