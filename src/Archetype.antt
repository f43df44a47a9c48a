-- ===== src/Archetype.antt =====
-- internal/archetype: the library of failure archetypes and the ranking of their hypotheses.
pub mod Catalogue
pub mod Ranking
use incident_investigator.Prelude.{
  ℕ, ltb, ◌==◌, String, Bool, true, false, not, ◌&&◌, ◌||◌, Option, none, some, List, [], ◌∷◌, ◌++◌,
  any, filter, map, contains, is_some, foldl, if◌then◌else◌,
}
use incident_investigator.Prelude.Dict.{Dict, lookup, insert}
use incident_investigator.Prelude.Sorting.{sort}
use Prim.Native.String.{compare}
use text.Mathlib.Text.{is_lt}
use incident_investigator.Model.Platform.{Platform, round1, sum}
use incident_investigator.Model.Evidence.{Category, Hypothesis, HypothesisStatus, Contradiction}
use incident_investigator.Model.Session.{Session}
use incident_investigator.Model.Signals.{Signals}

pub record Candidate (F : Type 0) : Type 0 where
  pub hypothesis_id : String
  pub statement : String
  pub score : F
  pub rationale : String
  pub support : List String
  pub conflict : List String
  pub always_keep : Bool

pub record ScoreContext (F : Type 0) : Type 0 where
  pub session : Session F
  pub signals : Signals
  pub contradictions : List Contradiction

-- ScoreContext.DeployContradicted
unfoldable pub deploy_contradicted : {F : Type 0} → ScoreContext F → Bool
deploy_contradicted ctx =
    any (λ (c : Contradiction). c.id == "contradiction-deploy-after-incident") ctx.contradictions

pub record QuestionEffect (F : Type 0) : Type 0 where
  pub when_true : Bool
  pub action : String
  pub hypothesis_id : String
  pub amount : F

pub record QuestionSeed (F : Type 0) : Type 0 where
  pub id : String
  pub title : String
  pub description : String
  pub priority : ℕ
  pub requires : List Category
  pub depends_on : List String
  pub effects : List (QuestionEffect F)
  pub trigger_signal : String
  pub generates : List String

-- The interface Archetype, as the registry uses it.
pub record Archetype (F : Type 0) : Type 0 where
  pub id : String
  pub applicable : ScoreContext F → Bool
  pub score : ScoreContext F → Candidate F
  pub seed_questions : List (QuestionSeed F)

pub record Registry (F : Type 0) : Type 0 where
  pub order : List (Archetype F)
  pub by_id : Dict (Archetype F)

module _ {F : Type 0} where
  -- Register
  unfoldable pub register : Archetype F → Registry F → Registry F
  register a r = record {
    order = if is_some (lookup a.id r.by_id) then r.order else r.order ++ a ∷ [];
    by_id = insert a.id a r.by_id;
  }

  unfoldable pub empty_registry : Registry F
  empty_registry = record { order = []; by_id = [] }

  unfoldable pub register_all : List (Archetype F) → Registry F → Registry F
  register_all [] r = r
  register_all (a ∷ rest) r = register_all rest (register a r)

  -- NewRegistry
  unfoldable pub new_registry : List (Archetype F) → Registry F
  unfolding register_all empty_registry
  new_registry archetypes = register_all archetypes empty_registry

  -- All
  abbrev pub all_archetypes : Registry F → List (Archetype F)
  all_archetypes r = r.order

  -- ByID
  abbrev pub archetype_by_id : Registry F → String → Option (Archetype F)
  archetype_by_id r id = lookup id r.by_id

  -- The loops of SeedQuestions, with the set of the ids seen.
  unfoldable pub fresh_seeds : List String → List (QuestionSeed F) → List (QuestionSeed F)
  fresh_seeds seen [] = []
  fresh_seeds seen (q ∷ qs) =
      let rest = fresh_seeds (q.id ∷ seen) qs in
      if contains seen q.id then fresh_seeds seen qs else q ∷ rest

  unfoldable pub all_seeds : List (Archetype F) → List (QuestionSeed F)
  all_seeds [] = []
  all_seeds (a ∷ rest) = a.seed_questions ++ all_seeds rest

  -- SeedQuestions. The two loops visit the questions of all archetypes in order.
  unfoldable pub seed_questions : Registry F → List (QuestionSeed F)
  unfolding fresh_seeds
  seed_questions r = fresh_seeds [] (all_seeds r.order)

  -- The candidates that Score ranks.
  unfoldable pub applicable_candidates : ScoreContext F → List (Archetype F) → List (Candidate F)
  applicable_candidates ctx [] = []
  applicable_candidates ctx (a ∷ rest) =
      if a.applicable ctx
      then a.score ctx ∷ applicable_candidates ctx rest
      else applicable_candidates ctx rest

-- nonNil: the texts without repetition, with the set of the texts seen.
unfoldable pub non_nil_from : List String → List String → List String
non_nil_from seen [] = []
non_nil_from seen (v ∷ vs) =
    let rest = non_nil_from (v ∷ seen) vs in
    if contains seen v then non_nil_from seen vs else v ∷ rest

unfoldable pub non_nil : List String → List String
unfolding non_nil_from
non_nil vs = non_nil_from [] vs

-- Go's `<` on texts.
abbrev pub text_less : String → String → Bool
text_less a b = is_lt (compare a b)

module _ (P : Platform) where
  open P use {Float, of_ℕ, lt, le, eq, times, over}

  -- The first loop of candidatesToHypotheses.
  unfoldable pub kept_candidates : List (Candidate Float) → List (Candidate Float)
  kept_candidates cands =
      filter (λ (c : Candidate Float). lt (of_ℕ 0) c.score || c.always_keep) cands

  unfoldable pub total_score : List (Candidate Float) → Float
  total_score kept =
      let total = sum P (map (λ (c : Candidate Float). c.score) kept) in
      if le total (of_ℕ 0) then of_ℕ 1 else total

  unfoldable pub candidate_hypothesis : Float → Candidate Float → Hypothesis Float
  candidate_hypothesis total c = record {
    id = c.hypothesis_id;
    statement = c.statement;
    confidence = round1 P (times (over c.score total) (of_ℕ 100));
    status = HypothesisStatus.proposed;
    rationale = c.rationale;
    supporting_evidence = non_nil c.support;
    conflicting_evidence = non_nil c.conflict;
    reasoning_trace = [];
  }

  -- The comparison of the sort.
  unfoldable pub ranks_before : Hypothesis Float → Hypothesis Float → Bool
  ranks_before a b =
      if not (eq a.confidence b.confidence)
      then lt b.confidence a.confidence
      else text_less a.id b.id

  -- The switch of assignStatuses for the first hypothesis and for another one.
  unfoldable pub status_of_first : Float → HypothesisStatus
  status_of_first confidence =
      if le (of_ℕ 60) confidence
      then HypothesisStatus.leading
      else if le (of_ℕ 35) confidence
      then HypothesisStatus.supported
      else if lt confidence (of_ℕ 8)
      then HypothesisStatus.refuted
      else HypothesisStatus.proposed

  unfoldable pub status_of_other : Float → HypothesisStatus
  status_of_other confidence =
      if lt confidence (of_ℕ 8) then HypothesisStatus.refuted else HypothesisStatus.proposed

  -- assignStatuses
  unfoldable pub assign_statuses : List (Hypothesis Float) → List (Hypothesis Float)
  assign_statuses [] = []
  assign_statuses (h ∷ hs) =
      record h { status = status_of_first h.confidence }
      ∷ map (λ (o : Hypothesis Float). record o { status = status_of_other o.confidence }) hs

  -- candidatesToHypotheses
  unfoldable pub candidates_to_hypotheses : List (Candidate Float) → List (Hypothesis Float)
  candidates_to_hypotheses cands =
      let kept = kept_candidates cands in
      assign_statuses (sort ranks_before (map (candidate_hypothesis (total_score kept)) kept))

  -- Score
  unfoldable pub score : ScoreContext Float → Registry Float → List (Hypothesis Float)
  score ctx r = candidates_to_hypotheses (applicable_candidates ctx r.order)
