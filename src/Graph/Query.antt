-- ===== src/Graph/Query.antt =====
-- internal/graph/query.go: the built-in queries. `none` inside an ok result means that a search ran
-- out of fuel.
pub mod Upstream
use Prim.Native.String.{len}
use text.Mathlib.Text.{starts_with, find?, get?}
use incident_investigator.Prelude.{
  ℕ, zero, suc, ◌+◌, String, Bool, true, false, not, ◌&&◌, ◌||◌, Option, none, some, List, [], ◌∷◌,
  ◌++◌, ◌==◌, ◌<>◌, if◌then◌else◌, contains, length, ltb, filter, find, map, foldl, Result, ok, err,
}
use incident_investigator.Model.Platform.{Platform, sum}
use incident_investigator.Model.Evidence.{Value, chars}
use incident_investigator.Prelude.Dict.{lookup}
use incident_investigator.Model.Graph.{
  GraphNode, GraphEdge, Subgraph, GraphQueryKind, PathExplanation, node_question, edge_supports,
  edge_contradicts, edge_triggered, edge_depends_on, edge_correlates_with,
}
use incident_investigator.Graph.Store.{MemoryStore, all_nodes, all_edges, has_node}
use incident_investigator.Graph.Links.{Links, links, reverse_links, targets}
use incident_investigator.Graph.Traversal.{TraversalMode, is_causal, subgraph_from_nodes, traverse}
use incident_investigator.Graph.ShortestPath.{shortest_path}

-- unique, with the set of the texts seen
unfoldable pub unique_from : List String → List String → List String
unique_from seen [] = []
unique_from seen (v ∷ vs) =
    let rest = unique_from (v ∷ seen) vs in
    if contains seen v then unique_from seen vs else v ∷ rest

unfoldable pub unique : List String → List String
unfolding unique_from
unique vs = unique_from [] vs

-- The local variables of reverseTraverse.
pub record Reverse : Type 0 where
  pub visited : List String
  pub order : List String
  pub queue : List String

abbrev pub enter : String → Reverse → Reverse
enter prev r = record {
  visited = prev ∷ r.visited;
  order = r.order ++ prev ∷ [];
  queue = r.queue ++ prev ∷ [];
}

-- The inner loop, over the sources of the edges into a node.
unfoldable pub reverse_scan : List String → Reverse → Reverse
reverse_scan [] r = r
reverse_scan (prev ∷ prevs) r =
    reverse_scan prevs (if contains r.visited prev then r else enter prev r)

-- The loop on fuel; `none` means that the fuel ran out.
unfoldable pub reverse_loop : Links → ℕ → ℕ → Reverse → Option (List String)
reverse_loop rev limit zero r = if ltb (length r.order) limit then none else some r.order
reverse_loop rev limit (suc fuel) r = elim r.queue [
  | [] ↦ some r.order
  | id ∷ rest ↦
      let next =
        reverse_loop rev limit fuel (reverse_scan (targets rev id) (record r { queue = rest })) in
      if ltb (length r.order) limit then next else some r.order
]

-- The ids in the order that reverseTraverse collects them. A round takes an id off the queue, which
-- is as long as what it has collected and not yet taken, so the limit is fuel enough.
unfoldable pub reverse_order : Links → String → ℕ → Option (List String)
unfolding reverse_loop
reverse_order rev start limit =
    reverse_loop rev limit limit (record { visited = []; order = start ∷ []; queue = start ∷ [] })

abbrev pub id_prefixes : List String
id_prefixes = "svc:" ∷ "hyp:" ∷ "ev:" ∷ "q:" ∷ "inv:" ∷ []

abbrev pub is_labelled : String → GraphNode → Bool
is_labelled target n = n.label == target || n.ref_id == target

abbrev pub hypothesis_node : String → String
hypothesis_node id = if starts_with id "hyp:" then id else "hyp:" <> id

-- The property `status` of a node as a text, empty where it is none.
abbrev pub text_of : Option Value → String
text_of (some (chars t)) = t
text_of _ = ""

abbrev pub is_unanswered : GraphNode → Bool
is_unanswered n =
    let status = text_of (lookup "status" n.properties) in
    n.type == node_question && not (status == "answered") && not (status == "rejected")

module _ {F : Type 0} where
  -- The test in reverseTraverse's loop over the edges.
  unfoldable pub leads_upstream : GraphEdge F → Bool
  leads_upstream e = is_causal e.type || e.type == edge_depends_on || e.type == edge_triggered

  -- reverseTraverse
  unfoldable pub reverse_traverse : MemoryStore F → String → ℕ → String → Option (Subgraph F)
  reverse_traverse m start limit name =
      elim (reverse_order (reverse_links (links leads_upstream (all_edges m))) start limit) [
        | none ↦ none
        | some order ↦ some (subgraph_from_nodes m order name)
      ]

  -- The loop of resolveNodeID over the prefixes.
  unfoldable pub resolve_prefix : MemoryStore F → String → List String → Option String
  resolve_prefix m target [] = none
  resolve_prefix m target (prefix ∷ prefixes) =
      if has_node (prefix <> target) m
      then some (prefix <> target)
      else resolve_prefix m target prefixes

  -- resolveNodeID
  unfoldable pub resolve_node_id : MemoryStore F → String → String
  resolve_node_id m target =
      if has_node target m then target else elim (resolve_prefix m target id_prefixes) [
        | some candidate ↦ candidate
        | none ↦ elim (find (is_labelled target) (all_nodes m)) [ some n ↦ n.id | none ↦ target ]
      ]

  -- The ends of the edges that a query takes, in order.
  unfoldable pub ends : List (GraphEdge F) → List String
  ends [] = []
  ends (e ∷ es) = e.from ∷ e.to ∷ ends es

  -- queryUpstream, queryDownstream
  unfoldable pub query_upstream : MemoryStore F → String → ℕ → Option (Subgraph F)
  query_upstream m target limit = reverse_traverse m (resolve_node_id m target) limit "upstream"

  unfoldable pub query_downstream : MemoryStore F → String → ℕ → Option (Subgraph F)
  query_downstream m target limit = traverse m (resolve_node_id m target) TraversalMode.causal limit

  -- The edges that querySupportingEvidence and queryContradictions take.
  unfoldable pub supports_node : String → GraphEdge F → Bool
  supports_node hid e = e.to == hid && (e.type == edge_supports || e.type == edge_correlates_with)

  unfoldable pub contradicts_node : String → GraphEdge F → Bool
  contradicts_node hid e = e.to == hid && e.type == edge_contradicts

  -- querySupportingEvidence
  unfoldable pub query_supporting_evidence : MemoryStore F → String → Subgraph F
  query_supporting_evidence m id =
      let edges = filter (supports_node (hypothesis_node id)) (all_edges m) in
      record (subgraph_from_nodes m (unique (ends edges)) "supporting_evidence") { edges = edges }

  -- queryContradictions
  unfoldable pub query_contradictions : MemoryStore F → String → Subgraph F
  query_contradictions m id =
      let edges = filter (contradicts_node (hypothesis_node id)) (all_edges m) in
      subgraph_from_nodes m (unique (ends edges)) "contradictions"

  -- queryUnansweredQuestions
  unfoldable pub query_unanswered_questions : MemoryStore F → Subgraph F
  query_unanswered_questions m =
      subgraph_from_nodes m (map (λ (n : GraphNode). n.id) (filter is_unanswered (all_nodes m)))
        "unanswered_questions"

  -- queryServiceEvidence
  unfoldable pub query_service_evidence : MemoryStore F → String → Subgraph F
  query_service_evidence m service =
      let sid = "svc:" <> service in
      let edges = filter (λ (e : GraphEdge F). e.to == sid || e.from == sid) (all_edges m) in
      subgraph_from_nodes m (unique (ends edges ++ sid ∷ [])) "service_evidence"

  -- queryBlastRadius
  unfoldable pub query_blast_radius : MemoryStore F → String → ℕ → Option (Subgraph F)
  query_blast_radius m service limit = elim (query_downstream m ("svc:" <> service) limit) [
    | none ↦ none
    | some sg ↦ some (record sg { name = "blast_radius" })
  ]

-- strings.SplitN with "->" and 2: the text before the first arrow and the one behind it.
unfoldable pub split_arrow : String → Option (String × String)
split_arrow t = elim (find? t "->") [
  | none ↦ none
  | some i ↦ elim (get? t 0 i) [
    | none ↦ none
    | some before ↦ elim (get? t (i + 2) (len t)) [
      | none ↦ none
      | some behind ↦ some (before, behind)
    ]
  ]
]

module _ (P : Platform) where
  open P use {Float, of_ℕ, lt, plus, over, trim_space, quote}

  -- The loop of strongestPath over the edges behind the first.
  abbrev pub stronger : GraphEdge Float → GraphEdge Float → GraphEdge Float
  stronger top b = if lt top.confidence b.confidence then b else top

  -- strongestPath
  unfoldable pub strongest_path_of : MemoryStore Float → String → Subgraph Float
  strongest_path_of m target =
      let start = resolve_node_id m target in
      elim (filter (λ (e : GraphEdge Float). e.from == start && is_causal e.type) (all_edges m)) [
        | [] ↦ subgraph_from_nodes m (start ∷ []) "strongest_path"
        | e ∷ es ↦ subgraph_from_nodes m (start ∷ (foldl stronger e es).to ∷ []) "strongest_path"
      ]

  abbrev pub query_limit : ℕ → ℕ
  query_limit zero = 30
  query_limit (suc n) = suc n

  -- Query
  unfoldable pub query :
      MemoryStore Float → GraphQueryKind → String → ℕ → Result String (Option (Subgraph Float))
  query m kind target asked =
      let limit = query_limit asked in
      elim kind [
        | GraphQueryKind.upstream ↦ ok (query_upstream m target limit)
        | GraphQueryKind.downstream ↦ ok (query_downstream m target limit)
        | GraphQueryKind.supporting_evidence ↦ ok (some (query_supporting_evidence m target))
        | GraphQueryKind.contradictions ↦ ok (some (query_contradictions m target))
        | GraphQueryKind.unanswered_questions ↦ ok (some (query_unanswered_questions m))
        | GraphQueryKind.service_evidence ↦ ok (some (query_service_evidence m target))
        | GraphQueryKind.blast_radius ↦ ok (query_blast_radius m target limit)
        | GraphQueryKind.shortest_causal_path ↦ elim (split_arrow target) [
          | none ↦ err "shortest_causal_path target must be from->to"
          | some (before, behind) ↦ ok (shortest_path m (trim_space before) (trim_space behind))
        ]
        | GraphQueryKind.strongest_path ↦ ok (some (strongest_path_of m target))
        | GraphQueryKind.unknown_kind name ↦ err ("unknown query kind " <> quote name)
      ]
