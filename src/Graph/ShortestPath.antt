-- ===== src/Graph/ShortestPath.antt =====
-- ShortestPath of internal/graph/traversal.go.
pub mod Invariant
pub mod Correct
use incident_investigator.Prelude.{
  ℕ, zero, suc, String, Bool, true, false, not, Option, none, some, List, [], ◌∷◌, ◌++◌, ◌==◌,
  if◌then◌else◌, contains, length,
}
use incident_investigator.Prelude.Dict.{Dict, lookup, insert}
use incident_investigator.Model.Graph.{GraphEdge, Subgraph}
use incident_investigator.Graph.Store.{MemoryStore, all_edges}
use incident_investigator.Graph.Links.{Links, links, targets}
use incident_investigator.Graph.Traversal.{subgraph_from_nodes}

-- The local variables of ShortestPath.
pub record Search : Type 0 where
  pub parent : Dict String
  pub visited : List String
  pub queue : List String
  pub found : Bool

-- The inner loop, over the targets of `cur`. It breaks when it meets `to`.
unfoldable pub scan : String → String → Search → List String → Search
scan to cur s [] = s
scan to cur s (next ∷ ns) =
    let marked = record s { visited = next ∷ s.visited; parent = insert next cur s.parent } in
    let skipped = scan to cur s ns in
    let queued = scan to cur (record marked { queue = s.queue ++ next ∷ [] }) ns in
    if contains s.visited next
    then skipped
    else if next == to
    then record marked { found = true }
    else queued

-- The outer loop on fuel; `none` means that the fuel ran out.
unfoldable pub search_loop : Links → String → ℕ → Search → Option Search
search_loop adj to zero s = none
search_loop adj to (suc fuel) s = elim s.queue [
  | [] ↦ some s
  | cur ∷ rest ↦
      let after = scan to cur (record s { queue = rest }) (targets adj cur) in
      let next = search_loop adj to fuel after in if after.found then some after else next
]

unfoldable pub search_start : String → Search
search_start from = record { parent = []; visited = from ∷ []; queue = from ∷ []; found = false }

unfoldable pub search_fuel : Links → ℕ
search_fuel adj = suc (suc (length adj))

-- parent[cur]: a missing key reads as the empty text.
unfoldable pub parent_of : Dict String → String → String
parent_of parent cur = elim (lookup cur parent) [ none ↦ "" | some p ↦ p ]

-- The loop that walks back from `to`, on fuel.
unfoldable pub walk_back : Dict String → String → ℕ → String → List String → Option (List String)
walk_back parent from zero cur path = none
walk_back parent from (suc fuel) cur path =
    let p = parent_of parent cur in
    let rest = walk_back parent from fuel p (p ∷ path) in if cur == from then some path else rest

-- The ids that ShortestPath puts in its subgraph: `none` inside for no path.
-- The outer `none` means that the fuel ran out.
unfoldable pub found_path : Search → String → String → Option (Option (List String))
found_path s from to =
    if s.found
    then elim (walk_back s.parent from (length s.visited) to (to ∷ [])) [
      | none ↦ none
      | some path ↦ some (some path)
    ]
    else some none

unfoldable pub shortest_path_ids : Links → String → String → Option (Option (List String))
shortest_path_ids adj from to =
    if from == to
    then some (some (from ∷ []))
    else elim (search_loop adj to (search_fuel adj) (search_start from)) [
      | none ↦ none
      | some s ↦ found_path s from to
    ]

-- Every edge is followed, whatever its type.
unfoldable pub all_links : {F : Type 0} → MemoryStore F → Links
all_links m = links (λ e. true) (all_edges m)

-- The subgraph of the ids, or the empty one.
abbrev pub path_subgraph : {F : Type 0} → MemoryStore F → Option (List String) → Subgraph F
path_subgraph m none = record { name = "shortest_path"; nodes = []; edges = [] }
path_subgraph m (some path) = subgraph_from_nodes m path "shortest_path"

-- ShortestPath
unfoldable pub shortest_path : {F : Type 0} → MemoryStore F → String → String → Option (Subgraph F)
shortest_path m from to = elim (shortest_path_ids (all_links m) from to) [
  | none ↦ none
  | some answer ↦ some (path_subgraph m answer)
]
