-- ===== src/Signals/Lock.antt =====
-- The lock contention that internal/signals/signals.go looks for. Go leaves the order of the map of
-- entities open; here it is the order in which they first occur.
use text.Mathlib.Text.{is_lt}
use Prim.Native.String.{compare}
use incident_investigator.Prelude.{
  ℕ, ◌-◌, ◌*◌, ltb, leb, String, Bool, true, false, not, ◌&&◌, ◌||◌, Option, none, some, List, [],
  ◌∷◌, ◌++◌, ◌==◌, any, filter, map, contains, length, if◌then◌else◌,
}
use incident_investigator.Prelude.Dict.{Dict, lookup, insert}
use incident_investigator.Prelude.Insertion.{insertion_sort}
use incident_investigator.Prelude.Sorting.{sort}
use incident_investigator.Model.Platform.{Platform}
use incident_investigator.Model.Evidence.{
  Evidence, Value, number, database_events, configuration_changes, metrics_category,
}
use incident_investigator.Model.Signals.{LockContention}
use incident_investigator.Signals.{mentions, matches_any, haystack}
use incident_investigator.Signals.Keywords.{keywords_of}

-- The comparison of SortedByTime.
unfoldable pub is_earlier : Evidence → Evidence → Bool
is_earlier a b =
    if leb a.timestamp b.timestamp && leb b.timestamp a.timestamp
    then is_lt (compare a.id b.id)
    else ltb a.timestamp b.timestamp

-- SortedByTime
unfoldable pub sorted_by_time : List Evidence → List Evidence
unfolding is_earlier
sorted_by_time evidence = sort is_earlier evidence

-- The loop of EvidenceMatching, with the set `seen`.
unfoldable pub matching_ids : (Evidence → Bool) → List String → List Evidence → List String
matching_ids pred seen [] = []
matching_ids pred seen (e ∷ es) =
    let fresh = pred e && not (contains seen e.id) in
    let rest = matching_ids pred (if fresh then seen ++ e.id ∷ [] else seen) es in
    if fresh then e.id ∷ rest else rest

-- EvidenceMatching
unfoldable pub evidence_matching : (Evidence → Bool) → List Evidence → List String
unfolding matching_ids sorted_by_time
evidence_matching pred evidence = matching_ids pred [] (sorted_by_time evidence)

-- MentionsMissingTimeout
unfoldable pub mentions_missing_timeout : String → Bool
mentions_missing_timeout text =
    (mentions text "lock_timeout" || mentions text "statement_timeout")
    && any (mentions text) ("no " ∷ "without" ∷ "missing" ∷ "not set" ∷ "absent" ∷ "unbounded" ∷ [])

-- lockReleaseWindow, 2 seconds
abbrev pub lock_release_window : ℕ
lock_release_window = 2 * 1000000000

-- payloadInt: what a number is as an int, a negative one being `some none`.
unfoldable pub payload_int : Option Value → Option (Option ℕ)
payload_int (some (number n t)) = some n
payload_int _ = none

-- The tests of partitionLockQueue.
abbrev pub is_holder : Option (Option ℕ) → Bool
is_holder (some (some n)) = ltb 0 n
is_holder _ = false

abbrev pub is_waiter : Option (Option ℕ) → Bool
is_waiter (some (some n)) = not (ltb 0 n)
is_waiter _ = false

-- partitionLockQueue
unfoldable pub partition_lock_queue : List Evidence → List Evidence × List Evidence
unfolding payload_int
partition_lock_queue evs = (
  filter (λ (e : Evidence). is_holder (payload_int (lookup "rows_affected" e.payload))) evs,
  filter (λ (e : Evidence). is_waiter (payload_int (lookup "rows_affected" e.payload))) evs,
)

abbrev pub happens_before : Evidence → Evidence → Bool
happens_before a b = ltb a.timestamp b.timestamp

-- A cluster that the loop of clusterByTimestamp keeps.
abbrev pub kept_cluster : List Evidence → List (List Evidence) → List (List Evidence)
kept_cluster cluster rest = if leb 2 (length cluster) then cluster ∷ rest else rest

-- The loop of clusterByTimestamp: `start` is the time at which the cluster starts.
unfoldable pub cluster_loop : ℕ → ℕ → List Evidence → List Evidence → List (List Evidence)
cluster_loop window start cluster [] = kept_cluster cluster []
cluster_loop window start cluster (e ∷ es) =
    let apart = cluster_loop window e.timestamp (e ∷ []) es in
    let together = cluster_loop window start (cluster ++ e ∷ []) es in
    if ltb window (e.timestamp - start) then kept_cluster cluster apart else together

unfoldable pub cluster_sorted : ℕ → List Evidence → List (List Evidence)
unfolding cluster_loop
cluster_sorted window [] = []
cluster_sorted window (e ∷ es) = cluster_loop window e.timestamp (e ∷ []) es

-- clusterByTimestamp
unfoldable pub cluster_by_timestamp : ℕ → List Evidence → List (List Evidence)
unfolding cluster_sorted insertion_sort
cluster_by_timestamp window evs = cluster_sorted window (insertion_sort happens_before evs)

-- The loop over the clusters of an entity, up to its break.
unfoldable pub first_queue : List (List Evidence) → Option (List Evidence × List Evidence)
unfolding partition_lock_queue
first_queue [] = none
first_queue (cluster ∷ clusters) =
    let later = first_queue clusters in
    let parts = partition_lock_queue cluster in
    if ltb 0 (length parts.0) && ltb 0 (length parts.1) then some parts else later

unfoldable pub queue_of : List Evidence → Option (List Evidence × List Evidence)
unfolding first_queue cluster_by_timestamp
queue_of evs =
    if ltb (length evs) 2 then none else first_queue (cluster_by_timestamp lock_release_window evs)

abbrev pub events_or_none : Option (List Evidence) → List Evidence
events_or_none none = []
events_or_none (some evs) = evs

-- byEntity
unfoldable pub by_entity : Dict (List Evidence) → List Evidence → Dict (List Evidence)
by_entity m [] = m
by_entity m (e ∷ es) =
    by_entity
      (if not (e.category == database_events) || (e.entity == "")
        then m
        else insert e.entity (events_or_none (lookup e.entity m) ++ e ∷ []) m)
      es

abbrev pub no_contention : LockContention
no_contention = record {
  present = false;
  entity = "";
  holder_ids = [];
  waiter_ids = [];
  serialized_release = false;
  missing_lock_timeouts = false;
  healthy_database_metrics = false;
}

-- The loop over byEntity, up to its break.
unfoldable pub first_contention : Dict (List Evidence) → LockContention
unfolding queue_of
first_contention [] = no_contention
first_contention ((entity, evs) ∷ others) =
    let later = first_contention others in
    elim (queue_of evs) [
      | none ↦ later
      | some parts ↦ record no_contention {
        present = true;
        entity = entity;
        serialized_release = true;
        holder_ids = map (λ (e : Evidence). e.id) parts.0;
        waiter_ids = map (λ (e : Evidence). e.id) parts.1;
      }
    ]

module _ (P : Platform) where
  -- LooksLikeHealthyDatabaseMetrics
  unfoldable pub looks_like_healthy_database_metrics : Evidence → Bool
  unfolding haystack matches_any keywords_of mentions
  looks_like_healthy_database_metrics e =
      let text = haystack P e in
      (matches_any text (keywords_of "database")
        || mentions text "postgres"
        || mentions text "mysql"
        || mentions text "sql")
      && not (mentions text "saturat" || mentions text "exhaust")
      && not (mentions text "100/100" || mentions text "cpu 9" || mentions text "cpu 8")

  -- analyzeLockContention
  unfoldable pub analyze_lock_contention : List Evidence → LockContention
  unfolding first_contention by_entity mentions_missing_timeout looks_like_healthy_database_metrics
      haystack
  analyze_lock_contention ordered = record (first_contention (by_entity [] ordered)) {
    missing_lock_timeouts =
        any
          (λ (e : Evidence).
            (e.category == configuration_changes) && mentions_missing_timeout (haystack P e))
          ordered;
    healthy_database_metrics =
        any
          (λ (e : Evidence).
            (e.category == metrics_category) && looks_like_healthy_database_metrics e)
          ordered;
  }
