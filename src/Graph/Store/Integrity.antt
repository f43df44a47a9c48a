-- ===== src/Graph/Store/Integrity.antt =====
-- The invariant of MemoryStore, and calls on it.
use incident_investigator.Prelude.{
  ◌≡◌, String, true, some, List, [], ◌∷◌, eq_iff, arith, Result, ok, err, is_some, contains,
  Distinct, contains-concat,
}
use incident_investigator.Prelude.Dict.{
  lookup, lookup-insert, keys, insert-Distinct, retain-Distinct, lookup-retain,
}
use incident_investigator.Model.Graph.{GraphNode, GraphEdge}
use incident_investigator.Graph.Store.{
  MemoryStore, StoreError, empty, add_node, update_node, delete_node, named_edge, add_edge,
  remove_edge, other_key, elsewhere,
}

-- Every node and edge stands once, under its own id, and `order` lists every node.
pub record WellFormed {F : Type 0} (m : MemoryStore F) : Type 0 where
  pub nodes_unique : Distinct (keys m.nodes)
  pub edges_unique : Distinct (keys m.edges)
  pub node_ids : (k : String) (n : GraphNode) → lookup k m.nodes ≡ some n → n.id ≡ k
  pub edge_ids : (k : String) (e : GraphEdge F) → lookup k m.edges ≡ some e → e.id ≡ k
  pub listed : (k : String) → is_some (lookup k m.nodes) ≡ true → contains m.order k ≡ true

-- The calls that change a store.
pub data Op (F : Type 0) : Type 0 where
  adds_node updates_node : GraphNode → Op F
  deletes_node removes_edge : String → Op F
  adds_edge : GraphEdge F → Op F
  resets : Op F

module _ {F : Type 0} where
  -- A call that returns an error leaves the store as it was.
  abbrev pub or_unchanged : MemoryStore F → Result StoreError (MemoryStore F) → MemoryStore F
  or_unchanged m (ok m') = m'
  or_unchanged m (err e) = m

  unfoldable pub perform : Op F → MemoryStore F → MemoryStore F
  perform (adds_node n) m = add_node n m
  perform (updates_node n) m = or_unchanged m (update_node n m)
  perform (deletes_node id) m = or_unchanged m (delete_node id m)
  perform (removes_edge id) m = or_unchanged m (remove_edge id m)
  perform (adds_edge e) m = add_edge e m
  perform resets m = empty

  unfoldable pub run : List (Op F) → MemoryStore F → MemoryStore F
  run [] m = m
  run (o ∷ os) m = run os (perform o m)

  pub empty-WellFormed : WellFormed (empty {F = F})
  unfolding empty lookup
  empty-WellFormed = record {
    nodes_unique = tt;
    edges_unique = tt;
    node_ids = λ k n h. cc;
    edge_ids = λ k e h. cc;
    listed = λ k h. cc;
  }

  add_node-WellFormed :
      (m : MemoryStore F) (n : GraphNode) → WellFormed m → WellFormed (add_node n m)
  unfolding add_node
  add_node-WellFormed m n w = record {
    nodes_unique = ground (arith, insert-Distinct n.id n m.nodes);
    edges_unique = ground arith;
    node_ids =
        λ k x h. ground (arith, w.node_ids k x, lookup-insert n.id k n m.nodes, eq_iff n.id k);
    edge_ids = λ k e h. ground (arith, w.edge_ids k e);
    listed = λ k h. ground (
      arith,
      w.listed k,
      lookup-insert n.id k n m.nodes,
      contains-concat m.order n.id k,
      eq_iff n.id k,
    );
  }

  update_node-WellFormed :
      (m : MemoryStore F) (n : GraphNode)
      → WellFormed m
      → WellFormed (or_unchanged m (update_node n m))
  unfolding update_node
  update_node-WellFormed m n w = record {
    nodes_unique = ground (arith, insert-Distinct n.id n m.nodes);
    edges_unique = ground arith;
    node_ids =
        λ k x h. ground (arith, w.node_ids k x, lookup-insert n.id k n m.nodes, eq_iff n.id k);
    edge_ids = λ k e h. ground (arith, w.edge_ids k e);
    listed = λ k h. ground (arith, w.listed k, lookup-insert n.id k n m.nodes, eq_iff n.id k);
  }

  delete_node-WellFormed :
      (m : MemoryStore F) (id : String)
      → WellFormed m
      → WellFormed (or_unchanged m (delete_node id m))
  unfolding delete_node
  delete_node-WellFormed m id w = record {
    nodes_unique = ground (arith, retain-Distinct (other_key id) m.nodes);
    edges_unique = ground (arith, retain-Distinct (elsewhere id) m.edges);
    node_ids = λ k x h.
        ground (arith, w.node_ids k x, lookup-retain (other_key id) k m.nodes w.nodes_unique);
    edge_ids = λ k e h.
        ground (arith, w.edge_ids k e, lookup-retain (elsewhere id) k m.edges w.edges_unique);
    listed =
        λ k h. ground (arith, w.listed k, lookup-retain (other_key id) k m.nodes w.nodes_unique);
  }

  remove_edge-WellFormed :
      (m : MemoryStore F) (id : String)
      → WellFormed m
      → WellFormed (or_unchanged m (remove_edge id m))
  unfolding remove_edge
  remove_edge-WellFormed m id w = record {
    nodes_unique = ground arith;
    edges_unique = ground (arith, retain-Distinct (other_key id) m.edges);
    node_ids = λ k x h. ground (arith, w.node_ids k x);
    edge_ids = λ k e h.
        ground (arith, w.edge_ids k e, lookup-retain (other_key id) k m.edges w.edges_unique);
    listed = λ k h. ground (arith, w.listed k);
  }

  add_edge-WellFormed :
      (m : MemoryStore F) (e : GraphEdge F) → WellFormed m → WellFormed (add_edge e m)
  unfolding add_edge
  add_edge-WellFormed m e w = record {
    nodes_unique = w.nodes_unique;
    edges_unique = insert-Distinct (named_edge e).id (named_edge e) m.edges w.edges_unique;
    node_ids = w.node_ids;
    edge_ids = λ k x h. ground (
      arith,
      w.edge_ids k x,
      lookup-insert (named_edge e).id k (named_edge e) m.edges,
      eq_iff (named_edge e).id k,
    );
    listed = w.listed;
  }

  perform-WellFormed : (o : Op F) (m : MemoryStore F) → WellFormed m → WellFormed (perform o m)
  unfolding perform
  perform-WellFormed (adds_node n) m w = add_node-WellFormed m n w
  perform-WellFormed (updates_node n) m w = update_node-WellFormed m n w
  perform-WellFormed (deletes_node id) m w = delete_node-WellFormed m id w
  perform-WellFormed (removes_edge id) m w = remove_edge-WellFormed m id w
  perform-WellFormed (adds_edge e) m w = add_edge-WellFormed m e w
  perform-WellFormed resets m w = empty-WellFormed

  -- Whatever calls are made on a well-formed store, failing ones too, it stays well-formed: every
  -- node and every edge stands once and under its own id, and `order` lists every node.
  pub run-WellFormed : (os : List (Op F)) (m : MemoryStore F) → WellFormed m → WellFormed (run os m)
  unfolding run
  run-WellFormed [] m w = w
  run-WellFormed (o ∷ os) m w = run-WellFormed os (perform o m) (perform-WellFormed o m w)
