-- ===== src/Reasoning/Orchestrator.antt =====
-- internal/reasoning/orchestrator.go. The identifier of the cycle, the times and what the clock of
-- each reasoner measures are arguments, as is the order in which parallel reasoners finish.
use incident_investigator.Prelude.{
  ℕ, suc, ◌-◌, ltb, String, Option, none, some, List, [], ◌∷◌, ◌&&◌, length, Result, ok, err,
  if◌then◌else◌,
}
use incident_investigator.Prelude.Sorting.{sort}
use incident_investigator.Model.Platform.{Platform}
use incident_investigator.Model.Graph.{GraphView}
use incident_investigator.Model.Reasoning.{
  ReasoningAction, ReasoningResult, ReasonerMetrics, ReasoningCycle, ActionType,
  OrchestrationStrategy,
}
use incident_investigator.Graph.Store.{MemoryStore, from_view}
use incident_investigator.Reasoning.Applier.Loop.{apply}
use incident_investigator.Reasoning.Merge.{merge, outranks}
use incident_investigator.Reasoning.Reasoners.{
  Investigation, Reasoner, ReasonerRegistry, list_reasoners, more_urgent,
}

module _ {F : Type 0} where
  -- FromView, where the session has a graph.
  unfoldable pub opened : Option (GraphView F) → Option (MemoryStore F)
  unfolding from_view
  opened none = none
  opened (some v) = some (from_view (some v))

  -- The graph that Execute works on, and the one that it leaves in the investigation.
  unfoldable pub graph_or_view :
      Option (MemoryStore F) → Option (GraphView F) → Option (MemoryStore F)
  unfolding opened
  graph_or_view (some g) v = some g
  graph_or_view none v = opened v

  unfoldable pub graph_after :
      Option (MemoryStore F) → Option (GraphView F) → Option (MemoryStore F)
  unfolding from_view
  graph_after g none = g
  graph_after g (some v) = some (from_view (some v))

module _ (P : Platform) where
  open P use {Float, of_ℕ, plus, over, lt}

  -- The switch of countActionMetrics.
  unfoldable pub count_action :
      ActionType → ReasoningAction Float → ReasonerMetrics Float → ReasonerMetrics Float
  count_action ActionType.create_question a m = record m {
    questions_created = suc m.questions_created;
  }
  count_action ActionType.resolve_question a m = record m {
    questions_resolved = suc m.questions_resolved;
  }
  count_action ActionType.create_hypothesis a m = record m {
    hypotheses_created = suc m.hypotheses_created;
  }
  count_action ActionType.reject_hypothesis a m = record m {
    hypotheses_rejected = suc m.hypotheses_rejected;
  }
  count_action ActionType.mark_contradiction a m = record m {
    contradictions_found = suc m.contradictions_found;
  }
  count_action ActionType.create_recommendation a m = record m {
    recommendations_created = suc m.recommendations_created;
  }
  count_action ActionType.link_graph_nodes a m = record m {
    graph_edges_created = suc m.graph_edges_created;
  }
  count_action ActionType.increase_hypothesis_confidence a m = record m {
    average_confidence_delta = plus m.average_confidence_delta a.delta;
  }
  count_action ActionType.decrease_hypothesis_confidence a m = record m {
    average_confidence_delta = plus m.average_confidence_delta a.delta;
  }
  count_action _ a m = m

  unfoldable pub count_actions :
      List (ReasoningAction Float) → ReasonerMetrics Float → ReasonerMetrics Float
  unfolding count_action
  count_actions [] m = m
  count_actions (a ∷ actions) m = count_actions actions (count_action a.type a m)

  -- countActionMetrics
  unfoldable pub count_action_metrics : ReasoningResult Float → ReasoningResult Float
  unfolding count_actions
  count_action_metrics res =
      let counted = count_actions res.actions res.metrics in
      let n = length res.actions in
      record res {
        metrics =
            if ltb 0 n && lt (of_ℕ 0) counted.average_confidence_delta
            then record counted {
              average_confidence_delta = over counted.average_confidence_delta (of_ℕ n);
            }
            else counted;
      }

  unfoldable pub blank_result : ReasoningResult Float
  blank_result = record {
    reasoner = "";
    confidence = of_ℕ 0;
    actions = [];
    findings = [];
    metrics = record {
      execution_time = 0;
      questions_resolved = 0;
      questions_created = 0;
      hypotheses_created = 0;
      hypotheses_rejected = 0;
      average_confidence_delta = of_ℕ 0;
      contradictions_found = 0;
      recommendations_created = 0;
      graph_nodes_created = 0;
      graph_edges_created = 0;
      actions_proposed = 0;
    };
  }

  abbrev pub result_or_blank : Option (ReasoningResult Float) → ReasoningResult Float
  unfolding blank_result
  result_or_blank none = blank_result
  result_or_blank (some res) = res

  -- The fields that runOne sets.
  unfoldable pub stamped : Reasoner Float → ℕ → ReasoningResult Float → ReasoningResult Float
  unfolding count_action_metrics
  stamped r elapsed res = count_action_metrics (record res {
    reasoner = r.name;
    metrics = record res.metrics {
      execution_time = elapsed;
      actions_proposed = length res.actions;
    };
  })

  module _ (elapsed : String → ℕ) where
    -- runOne
    unfoldable pub run_one :
        Investigation Float → Reasoner Float → Result String (ReasoningResult Float)
    unfolding stamped result_or_blank
    run_one inv r = elim (r.analyze inv) [
      | err e ↦ err e
      | ok res ↦ ok (stamped r (elapsed r.name) (result_or_blank res))
    ]

    abbrev pub kept_result :
        Result String (ReasoningResult Float)
        → List (ReasoningResult Float)
        → List (ReasoningResult Float)
    kept_result (err e) rest = rest
    kept_result (ok res) rest = res ∷ rest

    -- runSequential
    unfoldable pub run_sequential :
        Investigation Float → List (Reasoner Float) → List (ReasoningResult Float)
    unfolding run_one
    run_sequential inv [] = []
    run_sequential inv (r ∷ rs) =
        let rest = run_sequential inv rs in
        if r.supports inv.session then kept_result (run_one inv r) rest else rest

    -- runParallel: reasoners only read the investigation, so that what runs at once gives what runs in
    -- turn gives, in the order of completion.
    unfoldable pub run_parallel :
        (List (ReasoningResult Float) → List (ReasoningResult Float))
        → Investigation Float
        → List (Reasoner Float)
        → List (ReasoningResult Float)
    unfolding run_sequential
    run_parallel completed inv rs = sort outranks (completed (run_sequential inv rs))

    unfoldable pub run_reasoners :
        OrchestrationStrategy
        → (List (ReasoningResult Float) → List (ReasoningResult Float))
        → Investigation Float
        → List (Reasoner Float)
        → List (ReasoningResult Float)
    unfolding run_parallel run_sequential
    run_reasoners OrchestrationStrategy.parallel completed inv rs = run_parallel completed inv rs
    run_reasoners _ completed inv rs = run_sequential inv rs

    -- Execute
    unfoldable pub execute :
        OrchestrationStrategy
        → (List (ReasoningResult Float) → List (ReasoningResult Float))
        → String
        → ℕ
        → ℕ
        → ReasonerRegistry Float
        → Investigation Float
        → ReasoningCycle Float × Investigation Float
    unfolding run_reasoners merge apply list_reasoners graph_or_view graph_after
    execute strategy completed cycle_id started ended reg inv =
        let results =
          run_reasoners strategy completed inv (sort more_urgent (list_reasoners reg)) in
        let b =
          apply P inv.session (graph_or_view inv.graph inv.session.graph)
            (merge P strategy results) in
        (
          record {
            cycle_id = cycle_id;
            started_at = started;
            completed_at = ended;
            reasoners = results;
            applied_actions = b.applied;
            rejected_actions = b.rejected;
            duration = ended - started;
            strategy = strategy;
          },
          record inv { session = b.session; graph = graph_after inv.graph b.session.graph },
        )
