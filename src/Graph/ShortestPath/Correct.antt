-- ===== src/Graph/ShortestPath/Correct.antt =====
-- The answers of ShortestPath, and the paths that they are.
use incident_investigator.Prelude.{
  ℕ, zero, suc, ◌+◌, ◌<◌, ◌≡◌, ◌≢◌, refl, sym, ◌∙◌, ap, String, Bool, true, false, false≢true,
  Option, none, some, List, [], ◌∷◌, ◌==◌, eq_iff, contains, length, List-cases, Bool-cases, inl,
  inr, arith, subst, eq_self,
}
use incident_investigator.Prelude.Dict.{Dict, lookup}
use incident_investigator.Graph.Links.{Links, targets, Reach, here, step}
use incident_investigator.Graph.ShortestPath.{
  Search, scan, search_loop, search_start, search_fuel, parent_of, walk_back, found_path,
  shortest_path_ids,
}
use incident_investigator.Graph.ShortestPath.Invariant.{
  Tree, root, child, Inv, work, unseen-le, scan-Scanned,
}

-- The ids of a walk along links, from its first node to its last.
pub data Trail (adj : Links) (to : String) : String → List String → Type 0 where
  single : Trail adj to to (to ∷ [])
  link :
      {u v : String} {path : List String}
      → contains (targets adj u) v ≡ true
      → Trail adj to v path
      → Trail adj to u (u ∷ path)

module _ (adj : Links) (from to : String) where
  abbrev idle : String → Bool
  idle u = false

  abbrev expanding : String → String → Bool
  expanding cur u = u == cur

  -- How the search ends.
  record Ended (t : Search) : Type 0 where
    hit : t.found ≡ true → (n : ℕ) × Tree adj t.parent from n to × (n < length t.visited)
    miss : t.found ≡ false → Inv adj from to idle t × (t.queue ≡ [])

  search_start-Inv : from ≢ to → Inv adj from to idle (search_start from)
  unfolding search_start lookup
  search_start-Inv ne = record {
    tree = λ v h. (0, subst (Tree adj [] from 0) (ground (arith, eq_iff from v)) root, omega arith);
    absent = λ v h. refl;
    source = ground (arith, eq_iff from from);
    closed = λ u v h l. ground arith;
    queued = λ u h. h;
    searching = refl;
    goal = ground (arith, eq_iff from to);
  }

  popped-Inv :
      (s : Search) (cur : String) (rest : List String)
      → s.queue ≡ cur ∷ rest
      → Inv adj from to idle s
      → Inv adj from to (expanding cur) (record s { queue = rest })
  popped-Inv s cur rest e inv = record {
    tree = inv.tree;
    absent = inv.absent;
    source = inv.source;
    closed = λ u v h l. ground (arith, inv.closed u v, eq_iff u cur, eq_iff cur u);
    queued = λ u h. ground (arith, inv.queued u);
    searching = inv.searching;
    goal = inv.goal;
  }

  -- Once its targets are visited, the node is done.
  expanded-Inv :
      (t : Search) (cur : String)
      → Inv adj from to (expanding cur) t
      → ((v : String) → contains (targets adj cur) v ≡ true → contains t.visited v ≡ true)
      → Inv adj from to idle t
  expanded-Inv t cur inv covered = record {
    tree = inv.tree;
    absent = inv.absent;
    source = inv.source;
    closed = λ u v h l.
        ground (arith, inv.closed u v, covered v, eq_iff u cur, ap (targets adj) {x = u} {y = cur});
    queued = inv.queued;
    searching = inv.searching;
    goal = inv.goal;
  }

  search_loop_ends :
      (fuel : ℕ) (s : Search)
      → Inv adj from to idle s
      → work adj from to s < fuel
      → (t : Search) × (search_loop adj to fuel s ≡ some t) × Ended t
  unfolding search_loop
  search_loop_ends zero s inv h = absurd (omega arith)
  search_loop_ends (suc fuel) s inv h = elim (List-cases s.queue) [
    | inl empty ↦ (
      s,
      ground arith,
      record { hit = λ f. absurd (false≢true (sym inv.searching ∙ f)); miss = λ _. (inv, empty) },
    )
    | inr (cur, rest, e) ↦
        let t = scan to cur (record s { queue = rest }) (targets adj cur) in
        let scanned =
          scan-Scanned adj from to (expanding cur) cur (record s { queue = rest }) (targets adj cur)
            (popped-Inv s cur rest e inv) (inv.queued cur (ground (arith, eq_iff cur cur)))
            (λ v l. l) in
        elim (Bool-cases t.found) [
          | inl hit ↦ (
            t,
            ground arith,
            record { hit = scanned.hit; miss = λ f. absurd (false≢true (sym f ∙ hit)) },
          )
          | inr miss ↦
              let (t', ends, ended) =
                search_loop_ends fuel t
                  (expanded-Inv t cur (scanned.miss miss) (scanned.covered miss))
                  (omega (arith, scanned.less, ap (λ (q : List String). length q) e)) in
              (t', ground arith, ended)
        ]
  ]

  -- Without a hit nothing that can be reached is left.
  closed_of_miss :
      (t : Search)
      → Inv adj from to idle t
      → t.queue ≡ []
      → {v : String} → Reach adj from v
      → contains t.visited v ≡ true
  closed_of_miss t inv e here = inv.source
  closed_of_miss t inv e (step {u} {v} r l) =
      ground (arith, inv.closed u v (closed_of_miss t inv e r) l)

  walk_back-Trail :
      (parent : Dict String) (fuel n : ℕ) (cur : String) (path : List String)
      → Tree adj parent from n cur
      → n < fuel
      → Trail adj to cur path
      → (p : List String) × (walk_back parent from fuel cur path ≡ some p)
        × Trail adj to from p
        × (length p ≡ n + length path)
  unfolding walk_back parent_of
  walk_back-Trail parent zero n cur path t h tr = absurd (omega arith)
  walk_back-Trail parent (suc fuel) zero cur path root h tr = (path, rw eq_self, tr, omega arith)
  walk_back-Trail parent (suc fuel) (suc n) cur path (child {u} t ne e l) h tr =
      let (p, ends, trail, len) =
        walk_back-Trail parent fuel n u (u ∷ path) t (omega arith) (link l tr) in
      (p, ground (arith, eq_iff cur from, eq_iff from cur), trail, omega arith)

  -- What ShortestPath answers: the ids of a path, or none where the goal cannot be reached.
  pub Answers : Option (List String) → Type 0
  Answers none = ¬ Reach adj from to
  Answers (some path) = Trail adj to from path

  found_path-Answers :
      (t : Search)
      → Ended t
      → (answer : Option (List String)) × (found_path t from to ≡ some answer) × Answers answer
  unfolding found_path Answers
  found_path-Answers t ended = elim (Bool-cases t.found) [
    | inl hit ↦
        let (n, tree, below) = ended.hit hit in
        let (path, ends, trail, _) =
          walk_back-Trail t.parent (length t.visited) n to (to ∷ []) tree below single in
        (some path, ground arith, trail)
    | inr miss ↦
        let (inv, empty) = ended.miss miss in
        (none, ground arith, λ r. absurd (false≢true (sym inv.goal ∙ closed_of_miss t inv empty r)))
  ]

  -- For any edges and ids ShortestPath ends. It answers with a path of edges from the first id to the
  -- second, or it answers none, and then the second id cannot be reached from the first.
  pub shortest_path_ids-Answers :
      (answer : Option (List String)) × (shortest_path_ids adj from to ≡ some answer)
      × Answers answer
  unfolding shortest_path_ids
  shortest_path_ids-Answers = elim (Bool-cases (from == to)) [
    | inl same ↦
        let e : from ≡ to = (eq_iff from to).0 same in
        (
          some (from ∷ []),
          rw same refl,
          unfold Answers in subst (λ x. Trail adj x from (from ∷ [])) e single,
        )
    | inr differ ↦
        let (t, ends, ended) =
          search_loop_ends (search_fuel adj) (search_start from)
            (search_start-Inv (λ e. ground (arith, eq_iff from to)))
            (unfold search_fuel search_start in omega (arith, unseen-le adj (from ∷ []))) in
        let (answer, e, good) = found_path-Answers t ended in (answer, rw (differ, ends) e, good)
  ]
