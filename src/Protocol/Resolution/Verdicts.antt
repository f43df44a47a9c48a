-- ===== src/Protocol/Resolution/Verdicts.antt =====
-- What a case of ResolutionEngine.Resolve writes, and the helpers hasCategoryError and
-- hasSaturationMetrics.
use incident_investigator.Prelude.{
  ℕ, ◌==◌, String, Bool, true, false, ◌&&◌, none, some, List, [], ◌∷◌, ◌<>◌, any,
}
use incident_investigator.Prelude.Dict.{Dict}
use incident_investigator.Model.Platform.{Platform}
use incident_investigator.Model.Evidence.{Category, Evidence, Value, metrics_category}
use incident_investigator.Model.Protocol.{ResolutionStatus}
use incident_investigator.Model.Session.{Session}
use incident_investigator.Model.Signals.{Signals}
use incident_investigator.Signals.{matches_any, print}

-- What a case writes into the resolution: the fields that it sets, the ids that it adds to the
-- supporting evidence, and whether the supporting evidence contradicts.
pub record Verdict : Type 0 where
  pub status : ResolutionStatus
  pub confidence : ℕ
  pub reason : String
  pub extra : List String
  pub contradicts : Bool

abbrev pub say : ResolutionStatus → ℕ → String → Verdict
say status confidence reason = record {
  status = status;
  confidence = confidence;
  reason = reason;
  extra = [];
  contradicts = false;
}

abbrev pub say_confirmed : ℕ → String → Verdict
say_confirmed = say ResolutionStatus.confirmed

abbrev pub say_rejected : ℕ → String → Verdict
say_rejected = say ResolutionStatus.rejected

abbrev pub say_insufficient : ℕ → String → Verdict
say_insufficient = say ResolutionStatus.insufficient_evidence

abbrev pub with_support : List String → Verdict → Verdict
with_support ids v = record v { extra = ids }

abbrev pub contradicted : Verdict → Verdict
contradicted v = record v { contradicts = true }

abbrev pub recovery_ids : Signals → List String
recovery_ids sig = elim sig.recovery [ none ↦ [] | some e ↦ e.id ∷ [] ]

abbrev pub error_words : List String
error_words = "saturat" ∷ "timeout" ∷ "error" ∷ "exhaust" ∷ []

abbrev pub saturation_words : List String
saturation_words = "saturat" ∷ "100/100" ∷ "exhaust" ∷ "cpu 9" ∷ []

module _ (P : Platform) where
  open P use {Float, to_lower}

  -- hasCategoryError
  unfoldable pub has_category_error : Session Float → Category → Bool
  has_category_error s cat =
      any (λ (e : Evidence). (e.category == cat) && matches_any (to_lower e.summary) error_words)
        s.evidence

  -- The loop of hasSaturationMetrics over the payload.
  unfoldable pub metrics_text : Dict Value → String
  metrics_text [] = ""
  metrics_text ((k, v) ∷ m) = " " <> to_lower (print v) <> metrics_text m

  -- hasSaturationMetrics
  unfoldable pub has_saturation_metrics : Session Float → Bool
  unfolding metrics_text
  has_saturation_metrics s =
      any
        (λ (e : Evidence).
          (e.category == metrics_category)
          && matches_any (to_lower (e.summary <> " " <> e.entity) <> metrics_text e.payload)
              saturation_words)
        s.evidence
