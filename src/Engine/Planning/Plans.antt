-- ===== src/Engine/Planning/Plans.antt =====
-- What the planner asks for.
use incident_investigator.Prelude.{
  ◌≡◌, refl, sym, ap, ◌∙◌, subst, arith, ◌≤◌, Bool, true, false, List, [], ◌∷◌, map, String,
  contains, Distinct, inl, inr, eq_iff, Option-cases,
}
use incident_investigator.Prelude.Dict.{
  lookup, insert, keys, values, insert-Distinct, AllEntries, insert-AllEntries, lookup-AllEntries,
  contains-keys-insert,
}
use incident_investigator.Prelude.Order.{Ordered, sort-Ordered, sort-Distinct, contains-sort}
use incident_investigator.Model.Platform.{Platform}
use incident_investigator.Model.Evidence.{
  Category, EvidenceRequest, Priority, weight, deployment_events, application_logs, alert_events,
  metrics_category,
}
use incident_investigator.Model.Session.{Session}
use incident_investigator.Model.Signals.{Signals}
use incident_investigator.Engine.Planning.{
  Requests, upgraded, add_request, add_if, baseline, hinted, after_deployment, after_symptoms,
  sort_requests, requested_before, plan_requests,
}

abbrev Filed : String → EvidenceRequest → Type 0
Filed c r = r.category ≡ c

-- Each category has at most one request, which stands under it, and the four of the baseline have one.
record Kept (m : Requests) : Type 0 where
  once : Distinct (keys m)
  filed : AllEntries Filed m
  deployments : contains (keys m) deployment_events ≡ true
  logs : contains (keys m) application_logs ≡ true
  alerts : contains (keys m) alert_events ≡ true
  metrics : contains (keys m) metrics_category ≡ true

upgraded-Filed :
    (c : Category) (pr : Priority) (reason : String) (m : Requests)
    → AllEntries Filed m
    → Filed c (upgraded (lookup c m) c pr reason)
unfolding upgraded
upgraded-Filed c pr reason m h = elim (Option-cases (lookup c m)) [
  | inl e ↦ rw e refl
  | inr (r, e) ↦ rw e (lookup-AllEntries Filed c m h e)
]

still_there :
    (c j : Category) (r : EvidenceRequest) (m : Requests)
    → contains (keys m) j ≡ true
    → contains (keys (insert c r m)) j ≡ true
still_there c j r m h = ground (arith, contains-keys-insert c r m j)

add_request-Kept :
    (c : Category) (pr : Priority) (reason : String) (m : Requests)
    → Kept m
    → Kept (add_request c pr reason m)
unfolding add_request
add_request-Kept c pr reason m h = record {
  once = insert-Distinct c _ m h.once;
  filed = insert-AllEntries Filed c _ m (upgraded-Filed c pr reason m h.filed) h.filed;
  deployments = still_there c _ _ m h.deployments;
  logs = still_there c _ _ m h.logs;
  alerts = still_there c _ _ m h.alerts;
  metrics = still_there c _ _ m h.metrics;
}

add_if-Kept :
    (test : Bool) (c : Category) (pr : Priority) (reason : String) (m : Requests)
    → Kept m
    → Kept (add_if test c pr reason m)
unfolding add_if
add_if-Kept true c pr reason m h = add_request-Kept c pr reason m h
add_if-Kept false c pr reason m h = h

values-categories :
    (m : Requests)
    → AllEntries Filed m
    → map (λ (r : EvidenceRequest). r.category) (values m) ≡ keys m
unfolding values
values-categories [] h = refl
values-categories ((c, r) ∷ m) h =
    ap (λ cs. r.category ∷ cs) (values-categories m h.1) ∙ ap (λ d. d ∷ keys m) h.0

-- What the planner promises of its requests.
pub record Planned (requests : List EvidenceRequest) : Type 0 where
  pub once : Distinct (map (λ (r : EvidenceRequest). r.category) requests)
  pub strongest_first :
      Ordered (λ (a b : EvidenceRequest). weight b.priority ≤ weight a.priority) requests
  pub always :
      (c : Category)
      → contains (deployment_events ∷ application_logs ∷ alert_events ∷ metrics_category ∷ []) c
        ≡ true
      → contains (map (λ (r : EvidenceRequest). r.category) requests) c ≡ true

sort_requests-Planned : (m : Requests) → Kept m → Planned (sort_requests m)
unfolding sort_requests requested_before weight
sort_requests-Planned m h = record {
  once =
      sort-Distinct (λ (r : EvidenceRequest). r.category) requested_before (values m)
        (subst Distinct (sym (values-categories m h.filed)) h.once);
  strongest_first =
      sort-Ordered (λ (a b : EvidenceRequest). weight b.priority ≤ weight a.priority)
        requested_before (λ x y z i j. omega arith) (λ x y i. ground arith) (λ x y i. ground arith)
        (values m);
  always = λ c i.
      contains-sort (λ (r : EvidenceRequest). r.category) requested_before (values m) c
      ∙ ap (λ cs. contains cs c) (values-categories m h.filed)
      ∙ ground (
        arith,
        eq_iff deployment_events c,
        eq_iff application_logs c,
        eq_iff alert_events c,
        eq_iff metrics_category c,
        h.deployments,
        h.logs,
        h.alerts,
        h.metrics,
      );
}

baseline-Kept : Kept baseline
unfolding baseline add_request insert upgraded lookup
baseline-Kept = record {
  once = (refl, (refl, (refl, (refl, tt))));
  filed = (refl, (refl, (refl, (refl, tt))));
  deployments = refl;
  logs = refl;
  alerts = refl;
  metrics = refl;
}

hinted-Kept : (q : String) (m : Requests) → Kept m → Kept (hinted q m)
unfolding hinted
hinted-Kept q m h = search add_if-Kept

after_deployment-Kept : (sig : Signals) (m : Requests) → Kept m → Kept (after_deployment sig m)
unfolding after_deployment
after_deployment-Kept sig m h = search add_if-Kept

after_symptoms-Kept : (sig : Signals) (m : Requests) → Kept m → Kept (after_symptoms sig m)
unfolding after_symptoms
after_symptoms-Kept sig m h = search add_if-Kept

-- Whatever the question and the evidence, the planner asks for each category at most once, in the
-- order of the priorities, and always asks for deployments, application logs, alerts and metrics.
pub plan_requests-Planned :
    (P : Platform) (s : Session P.Float) (sig : Signals) → Planned (plan_requests P s sig)
unfolding plan_requests
plan_requests-Planned P s sig =
    sort_requests-Planned _ (
      after_symptoms-Kept sig _
        (after_deployment-Kept sig _ (hinted-Kept _ baseline baseline-Kept)))
