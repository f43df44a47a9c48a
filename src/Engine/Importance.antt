-- ===== src/Engine/Importance.antt =====
-- internal/engine/importance.go
pub mod Bounds
use incident_investigator.Prelude.{
  true, ℕ, ◌+◌, ◌-◌, ◌*◌, suc, ltb, String, Bool, false, ◌&&◌, ◌||◌, Option, none, some, List, [],
  ◌∷◌, ◌++◌, ◌==◌, any, contains, length, filter, if◌then◌else◌,
}
use incident_investigator.Model.Platform.{Platform, clamp, round1}
use incident_investigator.Model.Evidence.{
  Evidence, Hypothesis, deployment_events, alert_events, metrics_category, application_logs,
  database_events, human_context, trace_events,
}
use incident_investigator.Model.Investigation.{EvidenceImportance}
use incident_investigator.Model.Session.{Session}
use incident_investigator.Model.Signals.{Signals}
use incident_investigator.Signals.{matches_any, haystack}
use incident_investigator.Signals.Keywords.{keywords_of}

-- supportingSet
unfoldable pub is_supporting : {F : Type 0} → List (Hypothesis F) → String → Bool
is_supporting hyps id = any (λ (h : Hypothesis _). contains h.supporting_evidence id) hyps

abbrev pub has_id : Option Evidence → String → Bool
has_id none id = false
has_id (some e) id = e.id == id

-- The largest time.Duration, in nanoseconds.
abbrev pub max_duration : ℕ
max_duration = 9223372036854775807

-- absDuration of a difference of two times. Sub stops at the bounds of a Duration, and the least
-- Duration is its own negation: it stays negative, which `none` stands for.
abbrev pub apart : ℕ → ℕ → Option ℕ
apart a b =
    if ltb max_duration (b - a)
    then none
    else if ltb max_duration (a - b)
    then some max_duration
    else some ((a - b) + (b - a))

-- A negative Duration is less than every positive one.
abbrev pub is_shorter : Option ℕ → ℕ → Bool
is_shorter none bound = true
is_shorter (some d) bound = ltb d bound

-- Within two minutes of the onset.
abbrev pub is_near : Option Evidence → Evidence → Bool
is_near none e = false
is_near (some onset) e =
    ltb 0 e.timestamp && is_shorter (apart e.timestamp onset.timestamp) (120 * 1000000000)

module _ (P : Platform) where
  open P use {Float, of_ℕ, over, to_lower, trim_space}

  -- The switch of baseImportance.
  unfoldable pub category_importance : Evidence → Signals → ℕ
  unfolding haystack matches_any keywords_of
  category_importance e sig =
      if e.category == deployment_events
      then (if matches_any (haystack P e) (keywords_of "rollback")
          then 88
          else if has_id sig.first_deployment e.id
          then 95
          else 75)
      else if e.category == alert_events
      then (if has_id sig.incident_onset e.id then 90 else 70)
      else if e.category == metrics_category
      then (if matches_any (haystack P e) (keywords_of "latency")
            || matches_any (haystack P e) (keywords_of "error")
          then 81
          else 55)
      else if e.category == application_logs
      then (if matches_any (haystack P e) (keywords_of "error") then 65 else 45)
      else if e.category == database_events
      then 72
      else if e.category == human_context
      then 23
      else if e.category == trace_events
      then 60
      else 30

  -- baseImportance
  unfoldable pub base_importance : Evidence → Signals → List (Hypothesis Float) → ℕ
  unfolding category_importance is_supporting
  base_importance e sig hyps =
      category_importance e sig
      + (if is_supporting hyps e.id then 15 else 0)
      + (if is_near sig.incident_onset e then 10 else 0)

  -- The n-th evidence with a summary counts for an n-th.
  unfoldable pub importance_score : ℕ → ℕ → Float
  importance_score n base =
      clamp P (if ltb 1 n then round1 P (over (of_ℕ base) (of_ℕ n)) else of_ℕ base) (of_ℕ 1)
        (of_ℕ 100)

  -- The loop of Score; `seen` holds the summaries so far.
  unfoldable pub score_evidence :
      Signals
      → List (Hypothesis Float)
      → List String
      → List Evidence
      → List (EvidenceImportance Float)
  unfolding base_importance importance_score
  score_evidence sig hyps seen [] = []
  score_evidence sig hyps seen (e ∷ es) =
      let norm = to_lower (trim_space e.summary) in
      record {
        evidence_id = e.id;
        category = e.category;
        summary = e.summary;
        score =
            importance_score (suc (length (filter (λ t. t == norm) seen)))
              (base_importance e sig hyps);
      }
      ∷ score_evidence sig hyps (seen ++ norm ∷ []) es

  -- HeuristicImportanceEngine.Score
  unfoldable pub score_importance :
      Session Float → Signals → List (Hypothesis Float) → List (EvidenceImportance Float)
  unfolding score_evidence
  score_importance s sig hyps = score_evidence sig hyps [] s.evidence
