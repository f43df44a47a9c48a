-- ===== src/Protocol/Resolution/Sound.antt =====
-- What a resolution of ResolutionEngine.Resolve says, and when there is one.
use incident_investigator.Prelude.{
  ◌==◌, eq_iff, ◌≡◌, ◌≢◌, refl, ap, arith, ◌⊎◌, inl, inr, String, Bool, true, false, some, List, [],
  ◌∷◌, all, any, filter, map, contains, contains-append, List-cases,
}
use incident_investigator.Model.Platform.{Platform}
use incident_investigator.Model.Evidence.{Category, Evidence}
use incident_investigator.Model.Protocol.{Question, QuestionResolution, ResolutionStatus}
use incident_investigator.Model.Session.{Session, has_category}
use incident_investigator.Model.Signals.{Signals}
use incident_investigator.Protocol.Resolution.Verdicts.{Verdict}
use incident_investigator.Protocol.Resolution.Services.{
  resolve_operations, resolve_platform, resolve_data,
}
use incident_investigator.Protocol.Resolution.Cases.{
  verdict, resolve_deployment, resolve_database, resolve_change, resolve_network,
}
use incident_investigator.Protocol.Resolution.{resolve, resolution_of, evidence_for_categories}

abbrev is_known : ResolutionStatus → Bool
is_known ResolutionStatus.unknown = false
is_known _ = true

module _ (P : Platform) (s : Session P.Float) (sig : Signals) (id : String) (v : Verdict)
    (h : is_known v.status ≡ true) where
  deployment_known : is_known (resolve_deployment P s sig id v).status ≡ true
  unfolding resolve_deployment
  deployment_known = ground arith

  database_known : is_known (resolve_database P s sig id v).status ≡ true
  unfolding resolve_database
  database_known = ground arith

  change_known : is_known (resolve_change P s sig id v).status ≡ true
  unfolding resolve_change
  change_known = ground arith

  network_known : is_known (resolve_network P s sig id v).status ≡ true
  unfolding resolve_network
  network_known = ground arith

  operations_known : is_known (resolve_operations P s sig id v).status ≡ true
  unfolding resolve_operations
  operations_known = ground arith

  platform_known : is_known (resolve_platform P s sig id v).status ≡ true
  unfolding resolve_platform
  platform_known = ground arith

  data_known : is_known (resolve_data P s sig id v).status ≡ true
  unfolding resolve_data
  data_known = ground arith

verdict_known :
    (P : Platform) (s : Session P.Float) (sig : Signals) (id : String)
    → is_known (verdict P s sig id).status ≡ true
unfolding verdict
verdict_known P s sig id = deployment_known P s sig id _ (
    database_known P s sig id _ (
      change_known P s sig id _ (
        network_known P s sig id _ (
          operations_known P s sig id _
            (platform_known P s sig id _ (data_known P s sig id _ refl))))))

cited_nonempty :
    (es : List Evidence) (want : List Category) (c : Category)
    → contains want c ≡ true
    → any (λ (e : Evidence). e.category == c) es ≡ true
    → map (λ (e : Evidence). e.id) (filter (λ (e : Evidence). contains want e.category) es) ≢ []
cited_nonempty [] want c w h = cc
cited_nonempty (e ∷ es) want c w h = ground (
  arith,
  cited_nonempty es want c w,
  eq_iff e.category c,
  ap (contains want) {x = e.category} {y = c},
)

-- What a resolution that Resolve returns says: it is about the question, it confirms or rejects it,
-- every required category has been submitted, and it cites evidence, with all the evidence of these
-- categories.
pub record Resolved {F : Type 0} (q : Question F) (s : Session F) (r : QuestionResolution F)
    : Type 0 where
  pub asked : r.question_id ≡ q.id
  pub decided : (r.status ≡ ResolutionStatus.confirmed) ⊎ (r.status ≡ ResolutionStatus.rejected)
  pub gathered : all (has_category s) q.required_evidence ≡ true
  pub cites : r.supporting_evidence ≢ []
  pub cites_all :
      (id : String)
      → contains (evidence_for_categories s q.required_evidence) id ≡ true
      → contains r.supporting_evidence id ≡ true

module _ (P : Platform) where
  open P use {Float}

  -- Whatever the signals, a resolution that Resolve returns is about the question and confirms or
  -- rejects it; it is returned only if every required category has been submitted, and it cites at
  -- least one item of evidence and all the evidence of the required categories.
  pub resolve-Resolved :
      (q : Question Float) (s : Session Float) (sig : Signals) (r : QuestionResolution Float)
      → resolve P q s sig ≡ some r
      → Resolved q s r
  unfolding resolve resolution_of has_category evidence_for_categories
  resolve-Resolved q s sig r h = record {
    asked = ground arith;
    decided = ground (arith, verdict_known P s sig q.id);
    gathered = ground arith;
    cites = elim (List-cases q.required_evidence) [
      | inl empty ↦ cc (rw (empty, resolve) at h)
      | inr (c, cs, e) ↦ ground (arith, cited_nonempty s.evidence q.required_evidence c, eq_iff c c)
    ];
    cites_all = λ id c. ground (
      arith,
      contains-append (evidence_for_categories s q.required_evidence) (verdict P s sig q.id).extra
          id,
    );
  }
