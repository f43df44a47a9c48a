-- ===== src/Reasoning/Merge.antt =====
-- internal/reasoning/merge.go. Go leaves the order of the map of confidence changes open; here it is
-- the order in which the hypotheses first occur.
use incident_investigator.Prelude.{
  ℕ, String, Bool, true, false, ltb, Option, none, some, List, [], ◌∷◌, ◌++◌, ◌==◌, if◌then◌else◌,
}
use incident_investigator.Prelude.Dict.{Dict, lookup, insert}
use incident_investigator.Prelude.Sorting.{sort}
use incident_investigator.Model.Platform.{Platform}
use incident_investigator.Model.Reasoning.{
  ReasoningAction, ReasoningResult, ActionType, OrchestrationStrategy, same_type, bare_action,
}

-- reasonerPriority
unfoldable pub reasoner_priority : String → ℕ
reasoner_priority name =
    if name == "temporal"
    then 100
    else if name == "causal"
    then 90
    else if name == "hypothesis"
    then 80
    else if name == "consistency"
    then 70
    else if name == "semantic"
    then 50
    else 10

pub record WeightedAction (F : Type 0) : Type 0 where
  pub action : ReasoningAction F
  pub weight : ℕ

module _ {F : Type 0} where
  -- The comparison of the stable sorts by priority, highest first.
  abbrev pub outranks : ReasoningResult F → ReasoningResult F → Bool
  outranks a b = ltb (reasoner_priority b.reasoner) (reasoner_priority a.reasoner)

  unfoldable pub proposed_actions : List (ReasoningResult F) → List (ReasoningAction F)
  proposed_actions [] = []
  proposed_actions (r ∷ rs) = r.actions ++ proposed_actions rs

  -- mergeSequential
  unfoldable pub merge_sequential : List (ReasoningResult F) → List (ReasoningAction F)
  unfolding proposed_actions reasoner_priority
  merge_sequential results = proposed_actions (sort outranks results)

  -- replaceAction
  unfoldable pub replace_action :
      List (ReasoningAction F) → ReasoningAction F → List (ReasoningAction F)
  unfolding same_type
  replace_action [] a = a ∷ []
  replace_action (x ∷ xs) a =
      let rest = replace_action xs a in if same_type x.type a.type then a ∷ xs else x ∷ rest

-- What the loops of mergeWeighted build.
pub record Sorted (F : Type 0) : Type 0 where
  pub passthrough : List (ReasoningAction F)
  pub deltas : Dict (List (WeightedAction F))

module _ {F : Type 0} where
  abbrev pub deltas_of : Option (List (WeightedAction F)) → List (WeightedAction F)
  deltas_of none = []
  deltas_of (some items) = items

  -- confDeltas[id] = append(confDeltas[id], ...)
  unfoldable pub add_delta : ℕ → ReasoningAction F → Sorted F → Sorted F
  add_delta w a m = record m {
    deltas =
        insert a.hypothesis_id
          (deltas_of (lookup a.hypothesis_id m.deltas) ++ record { action = a; weight = w } ∷ [])
          m.deltas;
  }

  -- The switch of mergeWeighted.
  unfoldable pub sort_action : ActionType → ℕ → ReasoningAction F → Sorted F → Sorted F
  unfolding add_delta replace_action
  sort_action ActionType.increase_hypothesis_confidence w a m = add_delta w a m
  sort_action ActionType.decrease_hypothesis_confidence w a m = add_delta w a m
  sort_action ActionType.replace_hypotheses w a m = record m {
    passthrough = replace_action m.passthrough a;
  }
  sort_action ActionType.update_graph w a m = record m {
    passthrough = replace_action m.passthrough a;
  }
  sort_action ActionType.set_timeline w a m = record m {
    passthrough = replace_action m.passthrough a;
  }
  sort_action _ w a m = record m { passthrough = m.passthrough ++ a ∷ [] }

  unfoldable pub sort_actions : ℕ → List (ReasoningAction F) → Sorted F → Sorted F
  unfolding sort_action
  sort_actions w [] m = m
  sort_actions w (a ∷ actions) m = sort_actions w actions (sort_action a.type w a m)

  unfoldable pub sort_results : List (ReasoningResult F) → Sorted F → Sorted F
  unfolding sort_actions reasoner_priority
  sort_results [] m = m
  sort_results (r ∷ rs) m =
      sort_results rs (sort_actions (reasoner_priority r.reasoner) r.actions m)

-- A decrease counts downwards.
abbrev pub is_decrease : ActionType → Bool
is_decrease ActionType.decrease_hypothesis_confidence = true
is_decrease _ = false

module _ (P : Platform) where
  open P use {Float, of_ℕ, neg, plus, times, over, lt, eq}

  unfoldable pub signed_delta : ReasoningAction Float → Float
  signed_delta a = if is_decrease a.type then neg a.delta else a.delta

  -- The loop of weightedAverageDelta: the weighted sum, and the sum of the weights.
  unfoldable pub weigh : Float → Float → List (WeightedAction Float) → Float × Float
  unfolding signed_delta
  weigh total weights [] = (total, weights)
  weigh total weights (it ∷ items) =
      weigh (plus total (times (signed_delta it.action) (of_ℕ it.weight)))
        (plus weights (of_ℕ it.weight)) items

  -- weightedAverageDelta
  unfoldable pub weighted_average_delta : List (WeightedAction Float) → Float
  unfolding weigh
  weighted_average_delta items =
      let sums = weigh (of_ℕ 0) (of_ℕ 0) items in
      if eq sums.1 (of_ℕ 0) then of_ℕ 0 else over sums.0 sums.1

  unfoldable pub merged_action : String → Float → ReasoningAction Float
  unfolding bare_action
  merged_action id delta =
      let act : ReasoningAction Float =
        record (bare_action (of_ℕ 0) ActionType.increase_hypothesis_confidence) {
          reasoner = "orchestrator";
          reason = "Weighted merge of reasoner confidence deltas.";
          hypothesis_id = id;
          delta = delta;
        } in
      if lt delta (of_ℕ 0)
      then record act { type = ActionType.decrease_hypothesis_confidence; delta = neg delta }
      else act

  -- The loop over confDeltas.
  unfoldable pub merged_deltas : Dict (List (WeightedAction Float)) → List (ReasoningAction Float)
  unfolding weighted_average_delta merged_action
  merged_deltas [] = []
  merged_deltas ((id, items) ∷ others) =
      let delta = weighted_average_delta items in
      let rest = merged_deltas others in
      if eq delta (of_ℕ 0) then rest else merged_action id delta ∷ rest

  -- mergeWeighted
  unfoldable pub merge_weighted : List (ReasoningResult Float) → List (ReasoningAction Float)
  unfolding sort_results merged_deltas
  merge_weighted results =
      let m = sort_results results (record { passthrough = []; deltas = [] }) in
      m.passthrough ++ merged_deltas m.deltas

  -- Merge
  unfoldable pub merge :
      OrchestrationStrategy → List (ReasoningResult Float) → List (ReasoningAction Float)
  unfolding merge_weighted merge_sequential
  merge strategy [] = []
  merge OrchestrationStrategy.weighted_vote (r ∷ rs) = merge_weighted (r ∷ rs)
  merge OrchestrationStrategy.consensus (r ∷ rs) = merge_weighted (r ∷ rs)
  merge _ (r ∷ rs) = merge_sequential (r ∷ rs)
