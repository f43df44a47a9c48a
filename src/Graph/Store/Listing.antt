-- ===== src/Graph/Store/Listing.antt =====
-- What AllNodes and AllEdges show of a well-formed store, and what DeleteNode removes from both.
use incident_investigator.Prelude.{
  ◌≡◌, refl, inl, inr, ◌≢◌, String, Bool, true, false, ◌&&◌, some, List, [], ◌∷◌, eq_iff, arith, ok,
  is_some, contains, any, map, filter_map, Option-cases,
}
use incident_investigator.Prelude.Sorting.{any-sort}
use incident_investigator.Prelude.Dict.{Dict, lookup, lookup-retain, kept, retain, values}
use incident_investigator.Model.Graph.{GraphNode}
use incident_investigator.Graph.Store.{
  MemoryStore, delete_node, all_nodes, all_edges, has_node, get_node, is_incident, elsewhere,
  other_key, edge_less,
}
use incident_investigator.Graph.Store.Integrity.{WellFormed}

abbrev pub ids : List GraphNode → List String
ids ns = map (λ n. n.id) ns

pub contains-ids-filter_map :
    (nodes : Dict GraphNode) (os : List String) (k : String)
    → ((j : String) (n : GraphNode) → lookup j nodes ≡ some n → n.id ≡ j)
    → contains (ids (filter_map (λ id. lookup id nodes) os)) k
      ≡ (contains os k && is_some (lookup k nodes))
contains-ids-filter_map nodes [] k h = refl
contains-ids-filter_map nodes (o ∷ os) k h = elim (Option-cases (lookup o nodes)) [
  | inl e ↦ ground (arith, contains-ids-filter_map nodes os k h, eq_iff o k)
  | inr (n, e) ↦
      ground (arith, contains-ids-filter_map nodes os k h, eq_iff o k, eq_iff n.id k, h o n e)
]

any-values-retain {ℓ} :
    {V : Type ℓ} (p : V → Bool) (q : String → V → Bool) (m : Dict V)
    → ((k : String) (v : V) → q k v ≡ true → p v ≡ false)
    → any p (values (retain q m)) ≡ false
unfolding values retain
any-values-retain p q [] h = refl
any-values-retain p q ((j, v) ∷ m) h = ground (arith, any-values-retain p q m h, h j v)

module _ {F : Type 0} where
  -- In a well-formed store AllNodes has a node with an id exactly if HasNode finds one.
  pub contains-all_nodes :
      (m : MemoryStore F) (k : String)
      → WellFormed m
      → contains (ids (all_nodes m)) k ≡ has_node k m
  unfolding all_nodes has_node get_node
  contains-all_nodes m k w =
      ground (arith, contains-ids-filter_map m.nodes m.order k w.node_ids, w.listed k)

  -- What DeleteNode leaves: HasNode no longer finds it and finds every other node as before, no edge that AllEdges
  -- returns has it at an end, and an edge with other ends stays.
  pub record Deleted (id : String) (m d : MemoryStore F) : Type 0 where
    pub gone : has_node id d ≡ false
    pub others : (k : String) → k ≢ id → get_node k d ≡ get_node k m
    pub no_dangling : any (is_incident id) (all_edges d) ≡ false
    pub edges_left : (k : String) → lookup k d.edges ≡ kept (elsewhere id) k (lookup k m.edges)

  -- Where DeleteNode succeeds on a well-formed store, HasNode no longer finds the node and GetNode
  -- finds every other one as before, no edge that AllEdges returns has the node at an end, and every
  -- edge with other ends stays.
  pub delete_node-Deleted :
      (m d : MemoryStore F) (id : String) → WellFormed m → delete_node id m ≡ ok d → Deleted id m d
  unfolding delete_node has_node get_node all_edges
  delete_node-Deleted m d id w h = record {
    gone = ground (arith, lookup-retain (other_key id) id m.nodes w.nodes_unique, eq_iff id id);
    others =
        λ k ne. ground (arith, lookup-retain (other_key id) k m.nodes w.nodes_unique, eq_iff k id);
    no_dangling = ground (
      arith,
      any-sort edge_less (is_incident id) (values d.edges),
      any-values-retain (is_incident id) (elsewhere id) m.edges (λ k e x. ground arith),
    );
    edges_left = λ k. ground (arith, lookup-retain (elsewhere id) k m.edges w.edges_unique);
  }
