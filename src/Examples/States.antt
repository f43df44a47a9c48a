-- ===== src/Examples/States.antt =====
-- The theorems on archetypes at small inputs.
use incident_investigator.Prelude.{arith, ℕ, ◌≡◌, refl, true, false, [], ◌∷◌, some, is_some}
use incident_investigator.Prelude.Dict.{lookup, insert}
use incident_investigator.Archetype.{
  Archetype, Candidate, ScoreContext, new_registry, register, register_all, empty_registry,
  archetype_by_id, all_archetypes, score, candidates_to_hypotheses,
}
use incident_investigator.Archetype.Catalogue.{
  Catalogued, new_registry-Catalogued, register_again_keeps_score,
}
use incident_investigator.Archetype.Ranking.{RankOrder, Ranked, candidates_to_hypotheses-Ranked}
use incident_investigator.Examples.Inputs.{whole_numbers, incident, late_deployment}

abbrev leak : ℕ → Candidate ℕ
leak points = record {
  hypothesis_id = "memory-leak";
  statement = "A memory leak exhausts the pods.";
  score = points;
  rationale = "";
  support = "ev-1" ∷ "ev-1" ∷ [];
  conflict = [];
  always_keep = false;
}

abbrev leak_archetype : ℕ → Archetype ℕ
leak_archetype points = record {
  id = "memory-leak";
  applicable = λ ctx. true;
  score = λ ctx. leak points;
  seed_questions = [];
}

abbrev leak_context : ScoreContext ℕ
leak_context = record { session = incident; signals = late_deployment; contradictions = [] }

new_registry-Catalogued_example :
    Catalogued (new_registry (leak_archetype 3 ∷ leak_archetype 9 ∷ []))
new_registry-Catalogued_example = new_registry-Catalogued (leak_archetype 3 ∷ leak_archetype 9 ∷ [])

leak_known : is_some (archetype_by_id (new_registry (leak_archetype 3 ∷ [])) "memory-leak") ≡ true
unfolding new_registry register_all register empty_registry lookup insert
leak_known = refl

register_again_keeps_score_example :
    (archetype_by_id
        (register (leak_archetype 9) (new_registry (leak_archetype 3 ∷ [])))
        "memory-leak"
      ≡ some (leak_archetype 9))
    × (all_archetypes (register (leak_archetype 9) (new_registry (leak_archetype 3 ∷ [])))
        ≡ all_archetypes (new_registry (leak_archetype 3 ∷ [])))
    × (score whole_numbers leak_context
          (register (leak_archetype 9) (new_registry (leak_archetype 3 ∷ [])))
        ≡ score whole_numbers leak_context (new_registry (leak_archetype 3 ∷ [])))
register_again_keeps_score_example =
    register_again_keeps_score whole_numbers (leak_archetype 9)
      (new_registry (leak_archetype 3 ∷ [])) leak_context leak_known

whole_ranks : RankOrder whole_numbers
whole_ranks = record {
  eq_sym = λ a b. ground arith;
  lt_one_way = λ a b h. ground arith;
  eq_not_lt = λ a b h. ground arith;
}

candidates_to_hypotheses-Ranked_example :
    Ranked whole_numbers
      (leak 3 ∷ leak 9 ∷ [])
      (candidates_to_hypotheses whole_numbers (leak 3 ∷ leak 9 ∷ []))
candidates_to_hypotheses-Ranked_example =
    candidates_to_hypotheses-Ranked whole_numbers whole_ranks (leak 3 ∷ leak 9 ∷ [])
