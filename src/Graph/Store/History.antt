-- ===== src/Graph/Store/History.antt =====
-- Histories of a store with and without DeleteNode: when AllNodes repeats a node.
use incident_investigator.Prelude.{
  ◌≡◌, ◌∙◌, subst, String, Bool, true, false, some, List, [], ◌∷◌, ◌++◌, ◌==◌, eq_iff, arith, ok,
  is_some, if◌then◌else◌, contains, Distinct, inl, inr, contains-concat, all, filter_map,
  Option-cases, Distinct-concat,
}
use incident_investigator.Prelude.Dict.{
  Dict, lookup, lookup-insert, lookup-retain, kept, retain, insert,
}
use incident_investigator.Model.Graph.{GraphNode}
use incident_investigator.Graph.Store.{
  MemoryStore, empty, add_node, update_node, delete_node, add_edge, remove_edge, all_nodes,
  other_key,
}
use incident_investigator.Graph.Store.Integrity.{
  WellFormed, run-WellFormed, empty-WellFormed, run, perform, Op, adds_node, updates_node,
  adds_edge, removes_edge, deletes_node, resets,
}
use incident_investigator.Graph.Store.Listing.{ids, contains-ids-filter_map}

-- A call other than DeleteNode.
abbrev pub keeps_nodes : {F : Type 0} → Op F → Bool
keeps_nodes (deletes_node id) = false
keeps_nodes (adds_node n) = true
keeps_nodes (updates_node n) = true
keeps_nodes (removes_edge id) = true
keeps_nodes (adds_edge e) = true
keeps_nodes resets = true

filter_map-Distinct :
    (nodes : Dict GraphNode) (os : List String)
    → ((j : String) (n : GraphNode) → lookup j nodes ≡ some n → n.id ≡ j)
    → Distinct os
    → Distinct (ids (filter_map (λ id. lookup id nodes) os))
filter_map-Distinct nodes [] h d = tt
filter_map-Distinct nodes (o ∷ os) h d = elim (Option-cases (lookup o nodes)) [
  | inl e ↦ ground (arith, filter_map-Distinct nodes os h d.1)
  | inr (n, e) ↦
      ground (
        arith,
        contains-ids-filter_map nodes os n.id h,
        h o n e,
        filter_map-Distinct nodes os h d.1,
      )
]

repeated : (xs : List String) (x : String) → contains xs x ≡ true → ¬ Distinct (xs ++ x ∷ [])
repeated [] x c d = cc
repeated (y ∷ ys) x c d =
    ground (arith, contains-concat ys x y, repeated ys x, eq_iff y x, eq_iff x y)

ids-filter_map-concat :
    (nodes : Dict GraphNode) (os : List String) (k : String) (n : GraphNode)
    → lookup k nodes ≡ some n
    → ids (filter_map (λ id. lookup id nodes) (os ++ k ∷ []))
      ≡ ids (filter_map (λ id. lookup id nodes) os) ++ n.id ∷ []
ids-filter_map-concat nodes [] k n e = ground arith
ids-filter_map-concat nodes (o ∷ os) k n e = ground (arith, ids-filter_map-concat nodes os k n e)

module _ {F : Type 0} where
  -- Without deletions `order` lists exactly the nodes, each once.
  record Ordered (m : MemoryStore F) : Type 0 where
    distinct : Distinct m.order
    present : (k : String) → contains m.order k ≡ true → is_some (lookup k m.nodes) ≡ true

  perform-Ordered :
      (o : Op F) (m : MemoryStore F) → keeps_nodes o ≡ true → Ordered m → Ordered (perform o m)
  unfolding perform add_node update_node add_edge remove_edge empty
  perform-Ordered (adds_node n) m e h = record {
    distinct = ground (arith, Distinct-concat m.order n.id, h.present n.id);
    present = λ k c. ground (
      arith,
      h.present k,
      contains-concat m.order n.id k,
      lookup-insert n.id k n m.nodes,
      eq_iff n.id k,
    );
  }
  perform-Ordered (updates_node n) m e h = record {
    distinct = ground (arith, h.distinct);
    present = λ k c. ground (arith, h.present k, lookup-insert n.id k n m.nodes, eq_iff n.id k);
  }
  perform-Ordered (deletes_node id) m e h = cc
  perform-Ordered (removes_edge id) m e h = record {
    distinct = ground (arith, h.distinct);
    present = λ k c. ground (arith, h.present k);
  }
  perform-Ordered (adds_edge x) m e h = record { distinct = h.distinct; present = h.present }
  perform-Ordered resets m e h = record { distinct = tt; present = λ k c. cc }

  run-Ordered :
      (os : List (Op F)) (m : MemoryStore F)
      → all keeps_nodes os ≡ true
      → Ordered m
      → Ordered (run os m)
  unfolding run
  run-Ordered [] m e h = h
  run-Ordered (o ∷ os) m e h =
      run-Ordered os (perform o m) (ground arith) (perform-Ordered o m (ground arith) h)

  -- A new store that has had no DeleteNode returns each node once from AllNodes.
  pub run-Distinct :
      (os : List (Op F)) → all keeps_nodes os ≡ true → Distinct (ids (all_nodes (run os empty)))
  unfolding all_nodes
  run-Distinct os e =
      filter_map-Distinct (run os empty).nodes (run os empty).order
        (run-WellFormed os empty empty-WellFormed).node_ids (run-Ordered os empty e start).distinct
    where
      start : Ordered (empty {F = F})
      start = unfold empty in record { distinct = tt; present = λ k c. cc }

  -- What is left after a node was deleted and added again.
  readded :
      (m d : MemoryStore F) (n : GraphNode)
      → WellFormed m
      → delete_node n.id m ≡ ok d
      → (is_some (lookup n.id m.nodes) ≡ true)
        × ((add_node n d).nodes ≡ insert n.id n (retain (other_key n.id) m.nodes))
        × ((add_node n d).order ≡ m.order ++ n.id ∷ [])
  unfolding delete_node add_node
  readded m d n w h =
      let looked = lookup-retain (other_key n.id) n.id m.nodes w.nodes_unique in
      (
        ground arith,
        ground (arith, looked, eq_iff n.id n.id),
        ground (arith, looked, eq_iff n.id n.id),
      )

  -- A node that is deleted and added again is returned twice by AllNodes, from any well-formed store.
  pub readded_not-Distinct :
      (m d : MemoryStore F) (n : GraphNode)
      → WellFormed m
      → delete_node n.id m ≡ ok d
      → ¬ Distinct (ids (all_nodes (add_node n d)))
  unfolding all_nodes
  readded_not-Distinct m d n w h twice =
      repeated (ids (filter_map (λ id. lookup id nodes) m.order)) n.id found
        (subst Distinct (listing ∙ ids-filter_map-concat nodes m.order n.id n here) twice)
    where
      nodes : Dict GraphNode
      nodes = insert n.id n (retain (other_key n.id) m.nodes)

      looked :
          (j : String)
          → lookup j nodes
            ≡ (if n.id == j then some n else kept (other_key n.id) j (lookup j m.nodes))
      looked j = ground (
        arith,
        lookup-insert n.id j n (retain (other_key n.id) m.nodes),
        lookup-retain (other_key n.id) j m.nodes w.nodes_unique,
      )

      here : lookup n.id nodes ≡ some n
      here = ground (arith, looked n.id, eq_iff n.id n.id)

      own : (j : String) (x : GraphNode) → lookup j nodes ≡ some x → x.id ≡ j
      own j x e = ground (arith, looked j, eq_iff n.id j, w.node_ids j x)

      found : contains (ids (filter_map (λ id. lookup id nodes) m.order)) n.id ≡ true
      found = ground (
        arith,
        contains-ids-filter_map nodes m.order n.id own,
        here,
        w.listed n.id (readded m d n w h).0,
      )

      listing :
          ids (all_nodes (add_node n d))
          ≡ ids (filter_map (λ id. lookup id nodes) (m.order ++ n.id ∷ []))
      listing i =
          ids (filter_map (λ id. lookup id ((readded m d n w h).1 i)) ((readded m d n w h).2 i))
