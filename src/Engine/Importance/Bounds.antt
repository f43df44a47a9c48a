-- ===== src/Engine/Importance/Bounds.antt =====
-- The range of the scores of evidence.
use incident_investigator.Prelude.{
  ◌≡◌, refl, ap, arith, ℕ, suc, ltb, leb, true, false, String, List, [], ◌∷◌, ◌++◌, All, inl, inr,
  Bool-cases, map,
}
use incident_investigator.Model.Platform.{Platform, clamp, round1}
use incident_investigator.Model.Evidence.{Evidence, Hypothesis}
use incident_investigator.Model.Investigation.{EvidenceImportance}
use incident_investigator.Model.Session.{Session}
use incident_investigator.Model.Signals.{Signals}
use incident_investigator.Engine.Importance.{score_importance, score_evidence, importance_score}

-- What is used of float64: the order of whole constants, that a number is equal to itself, and that of
-- two such numbers either the first is less or the second is at most the first.
pub record Numbers (P : Platform) : Type 0 where
  pub constants : (m n : ℕ) → leb m n ≡ true → P.le (P.of_ℕ m) (P.of_ℕ n) ≡ true
  pub constant : (n : ℕ) → P.eq (P.of_ℕ n) (P.of_ℕ n) ≡ true
  pub shares :
      (m n : ℕ)
      → P.eq
          (round1 P (P.over (P.of_ℕ m) (P.of_ℕ (suc n))))
          (round1 P (P.over (P.of_ℕ m) (P.of_ℕ (suc n))))
        ≡ true
  pub total :
      (a b : P.Float) → P.eq a a ≡ true → P.eq b b ≡ true → P.lt a b ≡ false → P.le b a ≡ true

module _ (P : Platform) (N : Numbers P) where
  Within : ℕ → ℕ → P.Float → Type 0
  Within lo hi v = (P.le (P.of_ℕ lo) v ≡ true) × (P.le v (P.of_ℕ hi) ≡ true)

  clamp-Within :
      (lo hi : ℕ) (v : P.Float)
      → leb lo hi ≡ true
      → P.eq v v ≡ true
      → Within lo hi (clamp P v (P.of_ℕ lo) (P.of_ℕ hi))
  unfolding clamp Within
  clamp-Within lo hi v h n = elim (Bool-cases (P.lt v (P.of_ℕ lo))) [
    | inl e ↦ rw e (N.constants lo lo (ground arith), N.constants lo hi h)
    | inr e ↦ elim (Bool-cases (P.lt (P.of_ℕ hi) v)) [
      | inl f ↦ rw (e, f) (N.constants lo hi h, N.constants hi hi (ground arith))
      | inr f ↦
          rw (e, f)
            (N.total v (P.of_ℕ lo) n (N.constant lo) e, N.total (P.of_ℕ hi) v (N.constant hi) n f)
    ]
  ]

  importance_score-Within : (n base : ℕ) → Within 1 100 (importance_score P (suc n) base)
  unfolding importance_score
  importance_score-Within n base = elim (Bool-cases (ltb 1 (suc n))) [
    | inl e ↦ rw e (clamp-Within 1 100 _ refl (N.shares base n))
    | inr e ↦ rw e (clamp-Within 1 100 _ refl (N.constant base))
  ]

  score_evidence-Within :
      (sig : Signals) (hyps : List (Hypothesis P.Float)) (es : List Evidence) (seen : List String)
      → All
          (λ (i : EvidenceImportance P.Float). Within 1 100 i.score)
          (score_evidence P sig hyps seen es)
  unfolding score_evidence
  score_evidence-Within sig hyps [] seen = tt
  score_evidence-Within sig hyps (e ∷ es) seen = (
    importance_score-Within _ _,
    score_evidence-Within sig hyps es (seen ++ P.to_lower (P.trim_space e.summary) ∷ []),
  )

  ids-score_evidence :
      (sig : Signals) (hyps : List (Hypothesis P.Float)) (es : List Evidence) (seen : List String)
      → map (λ (i : EvidenceImportance P.Float). i.evidence_id) (score_evidence P sig hyps seen es)
        ≡ map (λ (e : Evidence). e.id) es
  unfolding score_evidence
  ids-score_evidence sig hyps [] seen = refl
  ids-score_evidence sig hyps (e ∷ es) seen =
      ap (λ ids. e.id ∷ ids)
        (ids-score_evidence sig hyps es (seen ++ P.to_lower (P.trim_space e.summary) ∷ []))

  -- Each piece of evidence has one score, in the order of the evidence, and every score is at least 1
  -- and at most 100, where float64 orders its numbers as `Numbers` says.
  pub score_importance-Within :
      (s : Session P.Float) (sig : Signals) (hyps : List (Hypothesis P.Float))
      → (map (λ (i : EvidenceImportance P.Float). i.evidence_id) (score_importance P s sig hyps)
          ≡ map (λ (e : Evidence). e.id) s.evidence)
        × All
            (λ (i : EvidenceImportance P.Float).
              (P.le (P.of_ℕ 1) i.score ≡ true) × (P.le i.score (P.of_ℕ 100) ≡ true))
            (score_importance P s sig hyps)
  unfolding score_importance Within
  score_importance-Within s sig hyps =
      (ids-score_evidence sig hyps s.evidence [], score_evidence-Within sig hyps s.evidence [])
