-- ===== src/Reasoning/Reasoners.antt =====
-- internal/reasoning/registry.go and investigation.go. A reasoner is a record of its methods; a
-- reasoner that is nil cannot be written.
pub mod Catalogue
use incident_investigator.Prelude.{
  ℕ, ltb, String, Bool, Option, none, some, List, [], ◌∷◌, ◌++◌, ◌<>◌, is_some, filter_map, Result,
  ok, err, if◌then◌else◌,
}
use incident_investigator.Prelude.Dict.{Dict, lookup, insert}
use incident_investigator.Prelude.Sorting.{sort}
use incident_investigator.Model.Platform.{Platform}
use incident_investigator.Model.Reasoning.{ReasoningResult}
use incident_investigator.Model.Session.{Session}
use incident_investigator.Model.Signals.{Signals}
use incident_investigator.Graph.Store.{MemoryStore}

-- Investigation. The engines are what a reasoner is built from.
pub record Investigation (F : Type 0) : Type 0 where
  pub session : Session F
  pub signals : Signals
  pub graph : Option (MemoryStore F)

-- Reasoner. Analyze may return no result without an error.
pub record Reasoner (F : Type 0) : Type 0 where
  pub name : String
  pub priority : ℕ
  pub supports : Session F → Bool
  pub analyze : Investigation F → Result String (Option (ReasoningResult F))

-- Registry
pub record ReasonerRegistry (F : Type 0) : Type 0 where
  pub reasoners : Dict (Reasoner F)
  pub order : List String

module _ {F : Type 0} where
  -- NewRegistry
  unfoldable pub empty_reasoners : ReasonerRegistry F
  empty_reasoners = record { reasoners = []; order = [] }

  -- Register: a later reasoner with the name takes the place of the earlier.
  unfoldable pub register_reasoner : Reasoner F → ReasonerRegistry F → ReasonerRegistry F
  register_reasoner r reg = record reg {
    order = if is_some (lookup r.name reg.reasoners) then reg.order else reg.order ++ r.name ∷ [];
    reasoners = insert r.name r reg.reasoners;
  }

  unfoldable pub register_reasoners : List (Reasoner F) → ReasonerRegistry F → ReasonerRegistry F
  unfolding register_reasoner
  register_reasoners [] reg = reg
  register_reasoners (r ∷ rs) reg = register_reasoners rs (register_reasoner r reg)

  abbrev pub more_urgent : Reasoner F → Reasoner F → Bool
  more_urgent a b = ltb b.priority a.priority

  -- List
  unfoldable pub list_reasoners : ReasonerRegistry F → List (Reasoner F)
  list_reasoners reg = sort more_urgent (filter_map (λ name. lookup name reg.reasoners) reg.order)

module _ (P : Platform) where
  open P use {Float, quote}

  -- Get
  unfoldable pub get_reasoner : String → ReasonerRegistry Float → Result String (Reasoner Float)
  get_reasoner name reg = elim (lookup name reg.reasoners) [
    | none ↦ err ("reasoner " <> quote name <> " not registered")
    | some r ↦ ok r
  ]
