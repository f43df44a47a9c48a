-- ===== src/Runtime/Recompute/Steps.antt =====
-- The next steps that a session shows after a recompute.
use incident_investigator.Prelude.{
  ◌≡◌, refl, arith, ap, sym, ◌∙◌, subst, ℕ, zero, suc, Bool, false, ◌≤◌, List, [], ◌∷◌, some,
  Option, All, any, length, ◌==◌,
}
use incident_investigator.Prelude.Pairs.{Pairs}
use incident_investigator.Prelude.Dict.{Dict}
use incident_investigator.Model.Platform.{Platform}
use incident_investigator.Model.Evidence.{Category, Evidence, Hypothesis}
use incident_investigator.Model.Investigation.{NextStep, ReasoningMetrics}
use incident_investigator.Model.Protocol.{InvestigationPlan, ProtocolEvidenceRequest}
use incident_investigator.Model.Session.{Session, has_category, add_journal, snapshot_hypotheses}
use incident_investigator.Model.Signals.{Signals}
use incident_investigator.Protocol.Playbook.{Playbook}
use incident_investigator.Protocol.Turn.{run}
use incident_investigator.Protocol.Turn.Accounts.{Needed, run-Accounts}
use incident_investigator.Engine.Trace.{
  update_reasoning_trace, apply_hypothesis_traces, journal_changes,
}
use incident_investigator.Runtime.Frame.{Given, given, given-reason_about}
use incident_investigator.Signals.Analysis.{analyze}
use incident_investigator.Runtime.Recompute.{
  Setup, Moment, Calibration, steps_of, protocol_requests_to_strategy, first_category, converse,
  apply_calibration, settle, prepare, reason_about, recompute,
}

module _ (P : Platform) where
  -- What decides on the next steps of a session, and the steps.
  pub record Steps : Type 0 where
    pub evidence : List Evidence
    pub plan : Option (InvestigationPlan P.Float)
    pub strategy : List (NextStep P.Float)

  unfoldable pub steps : Session P.Float → Steps
  steps s = record { evidence = s.evidence; plan = s.plan; strategy = s.strategy }

  -- The step passes the request on. It names the first category of the request, which no evidence has.
  pub record Proposes (evidence : List Evidence) (r : ProtocolEvidenceRequest P.Float)
      (st : NextStep P.Float) : Type 0 where
    pub asks : (rest : List Category) × (r.categories ≡ st.category ∷ rest)
    pub missing : any (λ (e : Evidence). e.category == st.category) evidence ≡ false
    pub reason : st.reason ≡ r.reason
    pub gain : st.expected_confidence_gain ≡ r.expected_confidence_gain

  -- The priorities count up from a number.
  abbrev pub Counted : ℕ → List (NextStep P.Float) → Type 0
  Counted place [] = Unit
  Counted place (st ∷ sts) = (st.priority ≡ place) × Counted (suc place) sts

  -- The plan has at most two requests, and there is a step for each of them, in their order.
  pub record Proposed (p : Steps) : Type 0 where
    pub plan : InvestigationPlan P.Float
    pub planned : p.plan ≡ some plan
    pub few : length plan.evidence_requests ≤ 2
    pub proposes : Pairs (Proposes p.evidence) plan.evidence_requests p.strategy
    pub counted : Counted 1 p.strategy

  steps_of-Pairs :
      (evidence : List Evidence) (left place : ℕ) (rs : List (ProtocolEvidenceRequest P.Float))
      → length rs ≤ left
      → All (Needed P (λ c. any (λ (e : Evidence). e.category == c) evidence)) rs
      → Pairs (Proposes evidence) rs (steps_of left place rs)
  unfolding steps_of
  steps_of-Pairs evidence zero place [] n h = tt
  steps_of-Pairs evidence zero place (r ∷ rs) n h = absurd (omega arith)
  steps_of-Pairs evidence (suc left) place [] n h = tt
  steps_of-Pairs evidence (suc left) place (r ∷ rs) n h =
      let (c, rest, e) = h.0.asks in
      rw h.0.opened (
        record {
          asks = (rest, e ∙ ap (λ cs. first_category cs ∷ rest) (sym e));
          missing = ground (arith, e, h.0.missing);
          reason = refl;
          gain = refl;
        },
        steps_of-Pairs evidence left (suc place) rs (omega arith) h.1,
      )

  steps_of-Counted :
      (has : Category → Bool) (left place : ℕ) (rs : List (ProtocolEvidenceRequest P.Float))
      → All (Needed P has) rs
      → Counted place (steps_of left place rs)
  unfolding steps_of
  steps_of-Counted has zero place rs h = tt
  steps_of-Counted has (suc left) place [] h = tt
  steps_of-Counted has (suc left) place (r ∷ rs) h =
      rw h.0.opened (refl, steps_of-Counted has left (suc place) rs h.1)

  steps-journal_changes :
      (prev : Dict (Hypothesis P.Float)) (now : ℕ) (hs : List (Hypothesis P.Float))
      (s : Session P.Float)
      → steps (journal_changes prev now hs s) ≡ steps s
  unfolding journal_changes add_journal steps
  steps-journal_changes prev now [] s = refl
  steps-journal_changes prev now (h ∷ hs) s = steps-journal_changes prev now hs _ ∙ ground arith

  module _ (R : Setup P) where
    steps-settle :
        (now : ℕ) (m : ReasoningMetrics P.Float) (s : Session P.Float)
        → steps (settle P R now m s) ≡ steps s
    unfolding settle update_reasoning_trace apply_hypothesis_traces steps
    steps-settle now m s = steps-journal_changes _ now s.hypotheses _

    steps-apply_calibration :
        (cal : Option (Calibration P.Float)) (at : ℕ) (s : Session P.Float)
        → steps (apply_calibration P R cal at s) ≡ steps s
    unfolding apply_calibration add_journal steps
    steps-apply_calibration cal at s = ground arith

    converse-Proposed :
        (pb : Playbook P.Float) (now : ℕ) (sig : Signals) (previous : P.Float) (s : Session P.Float)
        → Proposed (steps (converse P R (some pb) now sig previous s))
    unfolding converse steps protocol_requests_to_strategy has_category
    converse-Proposed pb now sig previous s =
        let (plan, e, accounts) = run-Accounts P pb s sig now previous in
        let t = (run P pb s sig now previous).0 in
        let shown : steps_of 2 1 plan.evidence_requests ≡ protocol_requests_to_strategy t.plan =
          ap protocol_requests_to_strategy (sym e) in
        record {
          plan = plan;
          planned = e;
          few = accounts.few;
          proposes =
              subst (Pairs (Proposes t.evidence) plan.evidence_requests) shown
                (steps_of-Pairs t.evidence 2 1 plan.evidence_requests accounts.few accounts.needed);
          counted =
              subst (Counted 1) shown
                (steps_of-Counted (has_category t) 2 1 plan.evidence_requests accounts.needed);
        }

    goal-reason_about :
        (w : Moment P.Float) (sig : Signals) (s : Session P.Float)
        → (reason_about P R w sig (prepare P R s)).goal ≡ s.goal
    unfolding given prepare snapshot_hypotheses
    goal-reason_about w sig s =
        ap (λ (g : Given). g.goal) (given-reason_about P R w sig (prepare P R s))

    -- After a recompute of a session whose goal has a playbook, the session has a plan with at most two
    -- evidence requests and shows one next step for each of them, in their order and numbered from 1.
    -- The step has the reason and the gain of the request and asks for its first category, which none
    -- of the evidence has.
    pub recompute-Proposed :
        (w : Moment P.Float) (s : Session P.Float) (pb : Playbook P.Float)
        → R.playbook_for s.goal ≡ some pb
        → Proposed (steps (recompute P R w s))
    unfolding recompute
    recompute-Proposed w s pb e =
        let sig = analyze P s.evidence in
        let reasoned = reason_about P R w sig (prepare P R s) in
        let talked = converse P R (R.playbook_for reasoned.goal) w.now sig s.confidence reasoned in
        let cal = R.calibrate false talked in
        subst Proposed
          (sym (
            steps-settle w.now s.metrics (apply_calibration P R cal w.calibrated talked)
            ∙ steps-apply_calibration cal w.calibrated talked
            ∙ ap (λ book. steps (converse P R book w.now sig s.confidence reasoned))
                (ap (λ goal. R.playbook_for goal) (goal-reason_about w sig s) ∙ e)))
          (converse-Proposed pb w.now sig s.confidence reasoned)
