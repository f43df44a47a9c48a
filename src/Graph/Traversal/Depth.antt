-- ===== src/Graph/Traversal/Depth.antt =====
-- The depth-first walk of Traverse: its depth, and what its order holds.
use incident_investigator.Prelude.{
  ℕ, zero, suc, ◌+◌, ◌≤◌, ◌<◌, ◌≡◌, refl, ap, String, true, false, not, ◌||◌, List, [], ◌∷◌, ◌++◌,
  eq_iff, contains, length, ltb, foldl, Bool-cases, inl, inr, ◌⊎◌, arith, Distinct, Distinct-concat,
  contains-concat, length-append, subst,
}
use incident_investigator.Graph.Links.{Links, targets, Reach, here, step}
use incident_investigator.Graph.Traversal.{Walk, dfs_visit, dfs_start}
use incident_investigator.Graph.Traversal.Breadth.{Collected}

module _ (adj : Links) (start : String) (limit : ℕ) where
  record Inv (w : Walk) : Type 0 where
    distinct : Distinct w.order
    same : (k : String) → contains w.visited k ≡ contains w.order k
    bounded : length w.order ≤ limit
    ordered : (k : String) → contains w.order k ≡ true → Reach adj start k

  -- What a visit with enough fuel does, from a walk that has the invariant: it keeps what was visited,
  -- and if there is room left under the limit, then it has visited the node, and every node that it
  -- entered has all its targets visited.
  record Visited (w t : Walk) (entry : String → Type 0) : Type 0 where
    inv : Inv t
    longer : length w.order ≤ length t.order
    more : (k : String) → contains w.visited k ≡ true → contains t.visited k ≡ true
    entered : length t.order < limit → (k : String) → entry k → contains t.visited k ≡ true
    closed :
        length t.order < limit
        → (u v : String) → contains t.visited u ≡ true
        → contains (targets adj u) v ≡ true
        → (contains w.visited u ≡ true) ⊎ (contains t.visited v ≡ true)

  module _ (visit : Walk → String → Walk) (depth : ℕ)
      (visits : (w : Walk) (id : String)
        → Inv w
        → Reach adj start id
        → limit < depth + length w.order
        → Visited w (visit w id) (λ k. id ≡ k)) where
    foldl-Visited :
        (w : Walk) (ids : List String)
        → Inv w
        → ((k : String) → contains ids k ≡ true → Reach adj start k)
        → limit < depth + length w.order
        → Visited w (foldl visit w ids) (λ k. contains ids k ≡ true)
    foldl-Visited w [] inv r h = record {
      inv = inv;
      longer = omega arith;
      more = λ k c. c;
      entered = λ room k c. cc;
      closed = λ room u v c l. inl c;
    }
    foldl-Visited w (id ∷ ids) inv r h =
        let first = visits w id inv (r id (ground (arith, eq_iff id id))) h in
        let rest =
          foldl-Visited (visit w id) ids first.inv (λ k c. r k (ground arith))
            (omega (arith, first.longer)) in
        record {
          inv = rest.inv;
          longer = omega (arith, first.longer, rest.longer);
          more = λ k c. rest.more k (first.more k c);
          entered = λ room k c. ground (
            arith,
            rest.entered room k,
            rest.more k,
            first.entered (omega (arith, rest.longer)) k,
            eq_iff id k,
          );
          closed = λ room u v c l. ground (
            arith,
            rest.closed room u v c l,
            rest.more v,
            first.closed (omega (arith, rest.longer)) u v,
          );
        }

  -- The walk after `dfs` has marked a node.
  abbrev enter : Walk → String → Walk
  enter w id = record w { visited = id ∷ w.visited; order = w.order ++ id ∷ [] }

  enter-Inv :
      (w : Walk) (id : String)
      → Inv w
      → Reach adj start id
      → contains w.visited id ≡ false
      → length w.order < limit
      → Inv (enter w id)
  enter-Inv w id inv r new room = record {
    distinct = Distinct-concat w.order id inv.distinct (ground (arith, inv.same id));
    same = λ k. ground (arith, inv.same k, contains-concat w.order id k);
    bounded = ground (arith, length-append w.order (id ∷ []));
    ordered = λ k h. elim (entered_order k h) [
      | inl old ↦ inv.ordered k old
      | inr same ↦ subst (Reach adj start) same r
    ];
  }
    where
      entered_order :
          (k : String)
          → contains (w.order ++ id ∷ []) k ≡ true
          → (contains w.order k ≡ true) ⊎ (id ≡ k)
      entered_order k h = ground (arith, contains-concat w.order id k, eq_iff id k)

  unmoved :
      (w : Walk) (id : String)
      → Inv w
      → (length w.order < limit → contains w.visited id ≡ true)
      → Visited w w (λ k. id ≡ k)
  unmoved w id inv seen = record {
    inv = inv;
    longer = omega arith;
    more = λ k c. c;
    entered = λ room k e. subst (λ j. contains w.visited j ≡ true) e (seen room);
    closed = λ room u v c l. inl c;
  }

  moved :
      (w t : Walk) (id : String)
      → Visited (enter w id) t (λ k. contains (targets adj id) k ≡ true)
      → Visited w t (λ k. id ≡ k)
  moved w t id v = record {
    inv = v.inv;
    longer = omega (arith, v.longer, length-append w.order (id ∷ []));
    more = λ k c. v.more k (ground arith);
    entered = λ room k e. v.more k (ground (arith, eq_iff id k));
    closed = λ room u x c l. ground (
      arith,
      v.closed room u x c l,
      v.entered room x,
      eq_iff id u,
      ap (targets adj) {x = id} {y = u},
    );
  }

  dfs_visit-Visited :
      (fuel : ℕ) (w : Walk) (id : String)
      → Inv w
      → Reach adj start id
      → limit < fuel + length w.order
      → Visited w (dfs_visit adj limit fuel w id) (λ k. id ≡ k)
  unfolding dfs_visit
  dfs_visit-Visited zero w id inv r h = absurd (omega (arith, inv.bounded))
  dfs_visit-Visited (suc fuel) w id inv r h =
      elim (Bool-cases (contains w.visited id || not (ltb (length w.order) limit))) [
        | inl stop ↦ rw stop (unmoved w id inv (λ room. ground arith))
        | inr go ↦ rw go (
            moved w _ id (
              foldl-Visited (dfs_visit adj limit fuel) fuel (dfs_visit-Visited fuel) (enter w id)
                (targets adj id) (enter-Inv w id inv r (ground arith) (ground arith))
                (λ k c. step r c) (omega (arith, length-append w.order (id ∷ [])))))
      ]

-- A walk that closed every node it entered has visited all that can be reached.
reached :
    (adj : Links) (start : String) (limit : ℕ) (t : Walk)
    → Visited adj start limit dfs_start t (λ k. start ≡ k)
    → length t.order < limit
    → {k : String} → Reach adj start k
    → contains t.visited k ≡ true
unfolding dfs_start
reached adj start limit t v room here = v.entered room start refl
reached adj start limit t v room (step {u} {v = x} r l) =
    ground (arith, v.closed room u x (reached adj start limit t v room r) l)

-- With one level more than the limit allows, `dfs` collects what the breadth-first walk collects.
pub dfs_visit-Collected :
    (adj : Links) (start : String) (limit : ℕ)
    → Collected adj start limit (dfs_visit adj limit (suc limit) dfs_start start).order
dfs_visit-Collected adj start limit = record {
  distinct = first.inv.distinct;
  bounded = first.inv.bounded;
  sound = first.inv.ordered;
  complete = λ room k r. rw (← first.inv.same k) (reached adj start limit t first room r);
}
  where
    t : Walk
    t = dfs_visit adj limit (suc limit) dfs_start start

    initial : Inv adj start limit dfs_start
    initial =
        unfold dfs_start in
        record { distinct = tt; same = λ k. refl; bounded = omega arith; ordered = λ k h. cc }

    first : Visited adj start limit dfs_start t (λ k. start ≡ k)
    first =
        dfs_visit-Visited adj start limit (suc limit) dfs_start start initial here
          (unfold dfs_start in omega arith)
