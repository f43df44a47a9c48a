-- ===== src/Protocol/Resolution.antt =====
-- internal/engine/protocol/resolution.go: what the evidence says of a question.
pub mod Cases
pub mod Services
pub mod Verdicts
pub mod Sound
use incident_investigator.Prelude.{
  ℕ, ◌==◌, ◌≡◌, String, Bool, true, false, not, Option, none, some, List, [], ◌∷◌, ◌++◌, ◌<>◌, all,
  any, filter, map, contains, if◌then◌else◌,
}
use incident_investigator.Model.Platform.{Platform}
use incident_investigator.Model.Evidence.{Category, Evidence}
use incident_investigator.Model.Protocol.{Question, QuestionResolution, ResolutionStatus}
use incident_investigator.Model.Session.{Session, has_category}
use incident_investigator.Model.Signals.{Signals}
use Cases.{verdict}
use Verdicts.{Verdict}

-- evidenceForCategories
unfoldable pub evidence_for_categories : {F : Type 0} → Session F → List Category → List String
evidence_for_categories s want =
    map (λ (e : Evidence). e.id) (filter (λ (e : Evidence). contains want e.category) s.evidence)

abbrev pub is_insufficient : ResolutionStatus → Bool
is_insufficient ResolutionStatus.insufficient_evidence = true
is_insufficient _ = false

module _ (P : Platform) where
  open P use {Float, of_ℕ}

  -- The resolution that a verdict makes for a question.
  unfoldable pub resolution_of : Question Float → Session Float → Verdict → QuestionResolution Float
  resolution_of q s v =
      let support = evidence_for_categories s q.required_evidence in
      record {
        question_id = q.id;
        status = v.status;
        confidence = of_ℕ v.confidence;
        reason = v.reason;
        supporting_evidence = support ++ v.extra;
        contradicting_evidence = if v.contradicts then support else [];
        resolved_at = 0;
      }

  -- ResolutionEngine.Resolve: nothing while a required category is missing, and nothing where the
  -- evidence is insufficient.
  unfoldable pub resolve :
      Question Float → Session Float → Signals → Option (QuestionResolution Float)
  resolve q s sig =
      let res = resolution_of q s (verdict P s sig q.id) in
      elim q.required_evidence [
        | [] ↦ none
        | c ∷ cs ↦
            if all (has_category s) (c ∷ cs)
            then if is_insufficient res.status then none else some res
            else none
      ]
