-- ===== src/Engine/Trace.antt =====
-- internal/engine/reasoning_trace.go
use incident_investigator.Prelude.{
  ℕ, suc, ltb, String, Bool, true, false, not, ◌&&◌, ◌||◌, Option, none, some, List, [], ◌∷◌, ◌++◌,
  ◌==◌, ◌<>◌, filter, map, length, if◌then◌else◌,
}
use incident_investigator.Prelude.Dict.{Dict, lookup, insert}
use incident_investigator.Model.Platform.{Platform, round1}
use incident_investigator.Model.Evidence.{Hypothesis, HypothesisStatus, ReasoningTrace, is_refuted}
use incident_investigator.Model.Session.{Session, add_journal}

abbrev pub is_leading : HypothesisStatus → Bool
is_leading HypothesisStatus.leading = true
is_leading _ = false

module _ {F : Type 0} where
  -- prev
  unfoldable pub index_hypotheses : Dict (Hypothesis F) → List (Hypothesis F) → Dict (Hypothesis F)
  index_hypotheses m [] = m
  index_hypotheses m (h ∷ hs) = index_hypotheses (insert h.id h m) hs

  -- Whether a hypothesis was there before and has entered a status.
  abbrev pub newly : (HypothesisStatus → Bool) → Option (Hypothesis F) → Hypothesis F → Bool
  newly test none h = false
  newly test (some old) h = not (test old.status) && test h.status

  -- The loop that writes the journal.
  unfoldable pub journal_changes :
      Dict (Hypothesis F) → ℕ → List (Hypothesis F) → Session F → Session F
  unfolding add_journal
  journal_changes prev now [] s = s
  journal_changes prev now (h ∷ hs) s =
      let old = lookup h.id prev in
      let refused =
        if newly is_refuted old h
        then add_journal "hypothesis_rejected" h.statement s.confidence now s
        else s in
      journal_changes prev now hs (
        if newly is_leading old h
        then add_journal "hypothesis_promoted" h.statement h.confidence now refused
        else refused)

  -- ApplyHypothesisTraces: a hypothesis without a trace keeps what it had.
  unfoldable pub traced : List (ReasoningTrace F) → Hypothesis F → Hypothesis F
  traced traces h =
      let own =
        filter (λ (t : ReasoningTrace F). not (t.hypothesis_id == "") && (t.hypothesis_id == h.id))
          traces in
      if ltb 0 (length own) then record h { reasoning_trace = own } else h

  unfoldable pub apply_hypothesis_traces : Session F → Session F
  unfolding traced
  apply_hypothesis_traces s = record s { hypotheses = map (traced s.reasoning_trace) s.hypotheses }

module _ (P : Platform) where
  open P use {Float, of_ℕ, neg, minus, lt, eq, whole, decimal}

  -- The change of confidence since the snapshot.
  abbrev pub change_since : Option (Hypothesis Float) → Hypothesis Float → Float
  change_since none h = h.confidence
  change_since (some old) h = round1 P (minus h.confidence old.confidence)

  -- reasoningReason
  unfoldable pub reasoning_reason : Option (Hypothesis Float) → Hypothesis Float → Float → String
  reasoning_reason none h delta =
      "Hypothesis created: " <> h.statement <> " (" <> whole h.confidence <> "%)."
  reasoning_reason (some old) h delta =
      if is_refuted h.status && not (is_refuted old.status)
      then "Hypothesis rejected: " <> h.statement <> "."
      else if lt (of_ℕ 0) delta
      then "Confidence increased by " <> whole delta <> "% for: " <> h.statement <> "."
      else if lt delta (of_ℕ 0)
      then "Confidence decreased by " <> whole (neg delta) <> "% for: " <> h.statement <> "."
      else "Evidence updated for: " <> h.statement <> "."

  -- The test by which a hypothesis gets a trace.
  unfoldable pub is_traced : Option (Hypothesis Float) → Hypothesis Float → Bool
  is_traced none h = true
  is_traced (some old) h =
      not (eq (change_since (some old) h) (of_ℕ 0))
      || ltb (length old.supporting_evidence) (length h.supporting_evidence)

  -- newObservationID and the trace
  unfoldable pub trace_of :
      ℕ → Option (Hypothesis Float) → Hypothesis Float → ℕ → ReasoningTrace Float
  unfolding reasoning_reason
  trace_of count old h now = record {
    observation_id = "obs-" <> h.id <> "-" <> decimal (suc count);
    hypothesis_id = h.id;
    reason = reasoning_reason old h (change_since old h);
    confidence_change = change_since old h;
    supporting_evidence = h.supporting_evidence;
    contradicting_evidence = h.conflicting_evidence;
    timestamp = now;
  }

  -- The loop that appends the traces.
  unfoldable pub append_traces :
      Dict (Hypothesis Float)
      → ℕ
      → List (Hypothesis Float)
      → List (ReasoningTrace Float)
      → List (ReasoningTrace Float)
  unfolding is_traced trace_of
  append_traces prev now [] traces = traces
  append_traces prev now (h ∷ hs) traces =
      let old = lookup h.id prev in
      append_traces prev now hs
        (if is_traced old h then traces ++ trace_of (length traces) old h now ∷ [] else traces)

  -- UpdateReasoningTrace
  unfoldable pub update_reasoning_trace : ℕ → Session Float → Session Float
  unfolding index_hypotheses append_traces journal_changes
  update_reasoning_trace now s =
      let prev = index_hypotheses [] s.prev_hypotheses in
      journal_changes prev now s.hypotheses
        (record s { reasoning_trace = append_traces prev now s.hypotheses s.reasoning_trace })
