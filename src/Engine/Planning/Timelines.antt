-- ===== src/Engine/Planning/Timelines.antt =====
-- The timeline and the evidence it stands for.
use Prim.Native.String.{compare}
use text.Mathlib.Text.{is_lt}
use mathlib.Core.List.{Permᴰ}
use incident_investigator.Prelude.{
  ◌≡◌, refl, true, false, Bool, ◌&&◌, leb, arith, ◌≤◌, List, [], ◌∷◌, map, All,
}
use incident_investigator.Prelude.Order.{Ordered, sort-Ordered, sort-Perm}
use incident_investigator.Prelude.TextOrder.{text_one_way}
use incident_investigator.Prelude.Pairs.{Pairs, Pairs-map, Stepwise, Stepwise-weaken, sort-Stepwise}
use incident_investigator.Model.Evidence.{Evidence}
use incident_investigator.Model.Investigation.{TimelineEntry}
use incident_investigator.Signals.Lock.{is_earlier, sorted_by_time}
use incident_investigator.Engine.Planning.{build_timeline, timeline_entry}

abbrev pub NotAfter : Evidence → Evidence → Type 0
NotAfter a b = a.timestamp ≤ b.timestamp

sorted_by_time-Ordered : (evidence : List Evidence) → Ordered NotAfter (sorted_by_time evidence)
unfolding sorted_by_time is_earlier
sorted_by_time-Ordered evidence =
    sort-Ordered NotAfter is_earlier (λ x y z h k. omega arith) (λ x y h. ground arith)
      (λ x y h. ground arith) evidence

abbrev pub EntryNotAfter : TimelineEntry → TimelineEntry → Type 0
EntryNotAfter a b = a.timestamp ≤ b.timestamp

entries-All :
    (e : Evidence) (es : List Evidence)
    → All (NotAfter e) es
    → All (EntryNotAfter (timeline_entry e)) (map timeline_entry es)
entries-All e [] h = tt
entries-All e (x ∷ es) h = (h.0, entries-All e es h.1)

entries-Ordered :
    (es : List Evidence) → Ordered NotAfter es → Ordered EntryNotAfter (map timeline_entry es)
entries-Ordered [] h = tt
entries-Ordered (e ∷ es) h = (entries-All e es h.0, entries-Ordered es h.1)

-- An entry that tells of a piece of evidence.
abbrev pub Tells : Evidence → TimelineEntry → Type 0
Tells e t =
    (t.timestamp ≡ e.timestamp)
    × (t.description ≡ e.summary)
    × (t.category ≡ e.category)
    × (t.entity ≡ e.entity)
    × (t.evidence_refs ≡ e.id ∷ [])

is_earlier_one_way : (a b : Evidence) → is_earlier a b ≡ true → is_earlier b a ≡ false
unfolding is_earlier
is_earlier_one_way a b h = ground (arith, text_one_way a.id b.id)

-- Of the same time, and with the smaller identifier.
abbrev pub is_smaller_twin : Evidence → Evidence → Bool
is_smaller_twin a b =
    leb a.timestamp b.timestamp && leb b.timestamp a.timestamp && is_lt (compare a.id b.id)

twins_in_order : (a b : Evidence) → is_earlier b a ≡ false → is_smaller_twin b a ≡ false
unfolding is_earlier
twins_in_order a b h = ground arith

-- What a timeline says of the evidence it is built from.
pub record Chronicle (evidence : List Evidence) (timeline : List TimelineEntry) : Type 0 where
  pub told : List Evidence
  pub complete : Permᴰ told evidence
  pub entries : Pairs Tells told timeline
  pub in_order : Ordered EntryNotAfter timeline
  pub ties : Stepwise is_smaller_twin told

-- The timeline has exactly one entry for each piece of evidence, which holds its time, summary,
-- category and entity and refers to its identifier. No entry comes before one with an earlier time,
-- and where neighbours have the same time, not before one whose evidence has a smaller identifier.
pub build_timeline-Chronicle :
    (evidence : List Evidence) → Chronicle evidence (build_timeline evidence)
unfolding build_timeline sorted_by_time
build_timeline-Chronicle evidence = record {
  told = sorted_by_time evidence;
  complete = sort-Perm is_earlier evidence;
  entries =
      Pairs-map Tells timeline_entry (λ e. (refl, refl, refl, refl, refl))
        (sorted_by_time evidence);
  in_order = entries-Ordered (sorted_by_time evidence) (sorted_by_time-Ordered evidence);
  ties =
      Stepwise-weaken is_earlier is_smaller_twin twins_in_order (sorted_by_time evidence)
        (sort-Stepwise is_earlier is_earlier_one_way evidence);
}
