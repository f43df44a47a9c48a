-- ===== src/Archetype/Ranking.antt =====
-- What Score returns: the ranked hypotheses.
use incident_investigator.Prelude.{
  ◌≡◌, refl, sym, subst, arith, String, Bool, true, false, ◌||◌, ◌&&◌, List, [], ◌∷◌, contains,
  Distinct, All, map, eq_iff, Bool-cases, inl, inr,
}
use Prim.Native.String.{compare}
use text.Mathlib.Text.{is_lt}
use mathlib.Core.List.{Permᴰ}
use incident_investigator.Prelude.Sorting.{sort, All-sort}
use incident_investigator.Prelude.Order.{sort-Perm}
use incident_investigator.Prelude.TextOrder.{text_one_way}
use incident_investigator.Prelude.Pairs.{
  Pairs, Pairs-map, sort-map, Stepwise, Stepwise-weaken, sort-Stepwise,
}
use incident_investigator.Model.Platform.{Platform, round1}
use incident_investigator.Model.Evidence.{Hypothesis, HypothesisStatus}
use incident_investigator.Archetype.{
  Candidate, non_nil, non_nil_from, kept_candidates, candidate_hypothesis, total_score,
  ranks_before, assign_statuses, status_of_other, candidates_to_hypotheses,
}

-- nonNil keeps a text that it has not seen, once.
contains-non_nil_from :
    (seen vs : List String) (k : String)
    → contains (non_nil_from seen vs) k ≡ true
    → contains seen k ≡ false
unfolding non_nil_from
contains-non_nil_from seen [] k h = ground arith
contains-non_nil_from seen (v ∷ vs) k h =
    ground
      (arith, contains-non_nil_from seen vs k, contains-non_nil_from (v ∷ seen) vs k, eq_iff v k)

non_nil_from-Distinct : (seen vs : List String) → Distinct (non_nil_from seen vs)
unfolding non_nil_from
non_nil_from-Distinct seen [] = tt
non_nil_from-Distinct seen (v ∷ vs) = elim (Bool-cases (contains seen v)) [
  | inl old ↦ rw old (non_nil_from-Distinct seen vs)
  | inr new ↦ rw new (
    ground (arith, contains-non_nil_from (v ∷ seen) vs v, eq_iff v v),
    non_nil_from-Distinct (v ∷ seen) vs,
  )
]

abbrev is_ahead : HypothesisStatus → Bool
is_ahead HypothesisStatus.leading = true
is_ahead HypothesisStatus.supported = true
is_ahead HypothesisStatus.confirmed = true
is_ahead _ = false

module _ (P : Platform) where
  open P use {Float}

  -- The evidence of a hypothesis is named once.
  pub record Cited (h : Hypothesis Float) : Type 0 where
    pub supporting : Distinct h.supporting_evidence
    pub conflicting : Distinct h.conflicting_evidence

  -- Only the first hypothesis may be leading or supported.
  abbrev OneAhead : List (Hypothesis Float) → Type 0
  OneAhead [] = Unit
  OneAhead (h ∷ hs) = All (λ (o : Hypothesis Float). is_ahead o.status ≡ false) hs

  -- What the program takes from the order of float64.
  pub record RankOrder : Type 0 where
    pub eq_sym : (a b : Float) → P.eq a b ≡ P.eq b a
    pub lt_one_way : (a b : Float) → P.lt a b ≡ true → P.lt b a ≡ false
    pub eq_not_lt : (a b : Float) → P.eq a b ≡ true → P.lt b a ≡ false

  -- More confident, or as confident and with the smaller id.
  abbrev pub outranks : Hypothesis Float → Hypothesis Float → Bool
  outranks a b =
      P.lt b.confidence a.confidence
      || (P.eq a.confidence b.confidence && is_lt (compare a.id b.id))

  -- A hypothesis that stands for a candidate, `total` being the sum of the scores.
  abbrev pub Stands : Float → Candidate Float → Hypothesis Float → Type 0
  Stands total c h =
      (h.id ≡ c.hypothesis_id)
      × (h.statement ≡ c.statement)
      × (h.confidence ≡ round1 P (P.times (P.over c.score total) (P.of_ℕ 100)))
      × (h.rationale ≡ c.rationale)
      × (h.supporting_evidence ≡ non_nil c.support)
      × (h.conflicting_evidence ≡ non_nil c.conflict)

  pub record Ranked (cands : List (Candidate Float)) (hs : List (Hypothesis Float)) : Type 0 where
    pub told : List (Candidate Float)
    pub complete : Permᴰ told (kept_candidates P cands)
    pub one_each : Pairs (Stands (total_score P (kept_candidates P cands))) told hs
    pub in_order : Stepwise outranks hs
    pub one_ahead : OneAhead hs
    pub cited : All Cited hs

  candidate_hypotheses-Cited :
      (total : Float) (cs : List (Candidate Float))
      → All Cited (map (candidate_hypothesis P total) cs)
  unfolding candidate_hypothesis non_nil
  candidate_hypotheses-Cited total [] = tt
  candidate_hypotheses-Cited total (c ∷ cs) = (
    record {
      supporting = non_nil_from-Distinct [] c.support;
      conflicting = non_nil_from-Distinct [] c.conflict;
    },
    candidate_hypotheses-Cited total cs,
  )

  abbrev behind : Hypothesis Float → Hypothesis Float
  behind o = record o { status = status_of_other P o.confidence }

  behind-Cited : (hs : List (Hypothesis Float)) → All Cited hs → All Cited (map behind hs)
  behind-Cited [] h = tt
  behind-Cited (o ∷ hs) h =
      (record { supporting = h.0.supporting; conflicting = h.0.conflicting }, behind-Cited hs h.1)

  behind-OneAhead :
      (hs : List (Hypothesis Float))
      → All (λ (o : Hypothesis Float). is_ahead o.status ≡ false) (map behind hs)
  unfolding status_of_other
  behind-OneAhead [] = tt
  behind-OneAhead (o ∷ hs) = (ground arith, behind-OneAhead hs)

  behind-Pairs :
      (total : Float) (cs : List (Candidate Float)) (hs : List (Hypothesis Float))
      → Pairs (Stands total) cs hs
      → Pairs (Stands total) cs (map behind hs)
  behind-Pairs total [] [] h = tt
  behind-Pairs total [] (o ∷ hs) h = absurd h
  behind-Pairs total (c ∷ cs) [] h = absurd h
  behind-Pairs total (c ∷ cs) (o ∷ hs) h = (h.0, behind-Pairs total cs hs h.1)

  behind-Stepwise :
      (hs : List (Hypothesis Float))
      → Stepwise (ranks_before P) hs
      → Stepwise (ranks_before P) (map behind hs)
  unfolding ranks_before
  behind-Stepwise [] h = tt
  behind-Stepwise (o ∷ []) h = tt
  behind-Stepwise (o ∷ p ∷ hs) h = (h.0, behind-Stepwise (p ∷ hs) h.1)

  assign_statuses-Stepwise :
      (hs : List (Hypothesis Float))
      → Stepwise (ranks_before P) hs
      → Stepwise (ranks_before P) (assign_statuses P hs)
  unfolding assign_statuses ranks_before
  assign_statuses-Stepwise [] h = tt
  assign_statuses-Stepwise (o ∷ []) h = tt
  assign_statuses-Stepwise (o ∷ p ∷ hs) h = (h.0, behind-Stepwise (p ∷ hs) h.1)

  assign_statuses-Pairs :
      (total : Float) (cs : List (Candidate Float)) (hs : List (Hypothesis Float))
      → Pairs (Stands total) cs hs
      → Pairs (Stands total) cs (assign_statuses P hs)
  unfolding assign_statuses
  assign_statuses-Pairs total [] [] h = tt
  assign_statuses-Pairs total [] (o ∷ hs) h = absurd h
  assign_statuses-Pairs total (c ∷ cs) [] h = absurd h
  assign_statuses-Pairs total (c ∷ cs) (o ∷ hs) h = (h.0, behind-Pairs total cs hs h.1)

  assign_statuses-Cited :
      (hs : List (Hypothesis Float)) → All Cited hs → All Cited (assign_statuses P hs)
  unfolding assign_statuses
  assign_statuses-Cited [] h = tt
  assign_statuses-Cited (o ∷ hs) h =
      (record { supporting = h.0.supporting; conflicting = h.0.conflicting }, behind-Cited hs h.1)

  assign_statuses-OneAhead : (hs : List (Hypothesis Float)) → OneAhead (assign_statuses P hs)
  unfolding assign_statuses
  assign_statuses-OneAhead [] = tt
  assign_statuses-OneAhead (o ∷ hs) = behind-OneAhead hs

  candidate_hypothesis-Stands :
      (total : Float) (c : Candidate Float) → Stands total c (candidate_hypothesis P total c)
  unfolding candidate_hypothesis
  candidate_hypothesis-Stands total c = (refl, refl, refl, refl, refl, refl)

  ranks_one_way :
      RankOrder → (a b : Hypothesis Float) → ranks_before P a b ≡ true → ranks_before P b a ≡ false
  unfolding ranks_before
  ranks_one_way o a b h = elim (Bool-cases (P.eq a.confidence b.confidence)) [
    | inl e ↦ ground (arith, o.eq_sym a.confidence b.confidence, text_one_way a.id b.id)
    | inr e ↦
        ground (arith, o.eq_sym a.confidence b.confidence, o.lt_one_way b.confidence a.confidence)
  ]

  ranked_lem :
      RankOrder → (a b : Hypothesis Float) → ranks_before P b a ≡ false → outranks b a ≡ false
  unfolding ranks_before
  ranked_lem o a b h = elim (Bool-cases (P.eq b.confidence a.confidence)) [
    | inl e ↦ ground (arith, o.eq_not_lt b.confidence a.confidence)
    | inr e ↦ ground arith
  ]

  -- Where `<` and `==` on float64 are as `RankOrder` says, the ranking has exactly one hypothesis for
  -- each candidate that scores or is always kept, with its id, statement and rationale, its share of
  -- all scores in percent as the confidence, and its evidence, each piece named once. No hypothesis
  -- is more confident than the one above it, or as confident and with a smaller id. Only the first can be leading or
  -- supported, and every other one is proposed or refuted.
  pub candidates_to_hypotheses-Ranked :
      RankOrder → (cands : List (Candidate Float)) → Ranked cands (candidates_to_hypotheses P cands)
  unfolding candidates_to_hypotheses
  candidates_to_hypotheses-Ranked o cands =
      let kept = kept_candidates P cands in
      let total = total_score P kept in
      let stand = candidate_hypothesis P total in
      let told = sort (λ a b. ranks_before P (stand a) (stand b)) kept in
      let raw = sort (ranks_before P) (map stand kept) in
      record {
        told = told;
        complete = sort-Perm (λ a b. ranks_before P (stand a) (stand b)) kept;
        one_each = assign_statuses-Pairs total told raw (
            subst (Pairs (Stands total) told) (sym (sort-map (ranks_before P) stand kept))
              (Pairs-map (Stands total) stand (candidate_hypothesis-Stands total) told));
        in_order =
            Stepwise-weaken (ranks_before P) outranks (ranked_lem o) (assign_statuses P raw) (
              assign_statuses-Stepwise raw
                (sort-Stepwise (ranks_before P) (ranks_one_way o) (map stand kept)));
        one_ahead = assign_statuses-OneAhead raw;
        cited =
            assign_statuses-Cited raw
              (All-sort Cited (ranks_before P) _ (candidate_hypotheses-Cited total kept));
      }
