-- ===== src/Graph/Query/Upstream.antt =====
-- What reverseTraverse collects.
use incident_investigator.Prelude.{
  ℕ, zero, suc, ◌+◌, ◌≡◌, refl, sym, ap, subst, ◌∙◌, inl, inr, arith, String, true, false, ◌||◌,
  some, List, [], ◌∷◌, ◌++◌, ◌==◌, Distinct, Distinct-concat, eq_iff, eq_self, ltb, length,
  contains, contains-concat, length-append, Bool-cases, List-cases, false≢true, if◌then◌else◌,
}
use incident_investigator.Graph.Links.{Links, targets, Reach}
use incident_investigator.Graph.Query.{Reverse, enter, reverse_scan, reverse_loop, reverse_order}

-- What the inner loop does to the local variables.
record Scanned (prevs : List String) (r t : Reverse) : Type 0 where
  counted : length t.order + length r.queue ≡ length r.order + length t.queue
  keeps : (k : String) → contains r.order k ≡ true → contains t.order k ≡ true
  keeps_queue : (k : String) → contains r.queue k ≡ true → contains t.queue k ≡ true
  marked :
      ((k : String) → contains r.visited k ≡ true → contains r.order k ≡ true)
      → (k : String) → contains t.visited k ≡ true
      → contains t.order k ≡ true
  queue_listed :
      ((k : String) → contains r.queue k ≡ true → contains r.order k ≡ true)
      → (k : String) → contains t.queue k ≡ true
      → contains t.order k ≡ true
  taken : (k : String) → contains prevs k ≡ true → contains t.visited k ≡ true
  waits :
      (k : String) → contains t.order k ≡ true → (contains r.order k || contains t.queue k) ≡ true
  from_edges :
      (k : String) → contains t.order k ≡ true → (contains r.order k || contains prevs k) ≡ true
  keeps_visited : (k : String) → contains r.visited k ≡ true → contains t.visited k ≡ true

Scanned-refl : (r : Reverse) → Scanned [] r r
Scanned-refl r = record {
  counted = refl;
  keeps = λ k h. h;
  keeps_queue = λ k h. h;
  marked = λ h. h;
  queue_listed = λ h. h;
  taken = λ k h. ground arith;
  waits = λ k h. ground arith;
  from_edges = λ k h. ground arith;
  keeps_visited = λ k h. h;
}

Scanned-enter :
    (p : String) (ps : List String) (r t : Reverse)
    → Scanned ps (enter p r) t
    → Scanned (p ∷ ps) r t
Scanned-enter p ps r t s = record {
  counted =
      omega (arith, s.counted, length-append r.order (p ∷ []), length-append r.queue (p ∷ []));
  keeps = λ k h. s.keeps k (ground (arith, contains-concat r.order p k));
  keeps_queue = λ k h. s.keeps_queue k (ground (arith, contains-concat r.queue p k));
  marked = λ h. s.marked (λ k v. ground (arith, contains-concat r.order p k, h k));
  queue_listed = λ h.
      s.queue_listed
        (λ k v. ground (arith, contains-concat r.order p k, contains-concat r.queue p k, h k));
  taken = λ k h. ground (arith, s.taken k, s.keeps_visited k);
  waits = λ k h. ground (
    arith,
    s.waits k h,
    s.keeps_queue k,
    contains-concat r.order p k,
    contains-concat r.queue p k,
  );
  from_edges = λ k h. ground (arith, s.from_edges k h, contains-concat r.order p k);
  keeps_visited = λ k h. s.keeps_visited k (ground arith);
}

Scanned-pass :
    (p : String) (ps : List String) (r t : Reverse)
    → contains r.visited p ≡ true
    → Scanned ps r t
    → Scanned (p ∷ ps) r t
Scanned-pass p ps r t old s = record {
  counted = s.counted;
  keeps = s.keeps;
  keeps_queue = s.keeps_queue;
  marked = s.marked;
  queue_listed = s.queue_listed;
  taken = λ k h. ground (arith, s.taken k, s.keeps_visited k, eq_iff p k);
  waits = s.waits;
  from_edges = λ k h. ground (arith, s.from_edges k h);
  keeps_visited = s.keeps_visited;
}

reverse_scan-Scanned : (ps : List String) (r : Reverse) → Scanned ps r (reverse_scan ps r)
unfolding reverse_scan
reverse_scan-Scanned [] r = Scanned-refl r
reverse_scan-Scanned (p ∷ ps) r = elim (Bool-cases (contains r.visited p)) [
  | inl old ↦ rw old (Scanned-pass p ps r _ old (reverse_scan-Scanned ps r))
  | inr new ↦ rw new (Scanned-enter p ps r _ (reverse_scan-Scanned ps (enter p r)))
]

-- The start, and behind it each node once.
pub record Once (start : String) (order : List String) : Type 0 where
  pub others : List String
  pub shape : order ≡ start ∷ others
  pub distinct : Distinct others

-- What is behind the start is marked and stands once.
record Entered (start : String) (order visited : List String) : Type 0 where
  once : Once start order
  seen : (k : String) → contains once.others k ≡ true → contains visited k ≡ true

Entered-enter :
    (start p : String) (order visited : List String)
    → contains visited p ≡ false
    → Entered start order visited
    → Entered start (order ++ p ∷ []) (p ∷ visited)
Entered-enter start p order visited new e = record {
  once = record {
    others = e.once.others ++ p ∷ [];
    shape = ap (λ xs. xs ++ p ∷ []) e.once.shape;
    distinct = Distinct-concat e.once.others p e.once.distinct (ground (arith, e.seen p, new));
  };
  seen = λ k h. ground (arith, contains-concat e.once.others p k, e.seen k);
}

Entered-step :
    (start p : String) (r : Reverse)
    → Entered start r.order r.visited
    → Entered start
        (if contains r.visited p then r else enter p r).order
        (if contains r.visited p then r else enter p r).visited
Entered-step start p r e = elim (Bool-cases (contains r.visited p)) [
  | inl old ↦ rw old e
  | inr new ↦ rw new (Entered-enter start p r.order r.visited new e)
]

Entered-reverse_scan :
    (start : String) (ps : List String) (r : Reverse)
    → Entered start r.order r.visited
    → Entered start (reverse_scan ps r).order (reverse_scan ps r).visited
unfolding reverse_scan
Entered-reverse_scan start [] r e = e
Entered-reverse_scan start (p ∷ ps) r e =
    Entered-reverse_scan start ps (if contains r.visited p then r else enter p r)
      (Entered-step start p r e)

module _ (rev : Links) (start : String) where
  -- The invariant of the outer loop: what is collected can be reached, what is marked is collected,
  -- and what is collected and no longer waits has all its neighbours collected.
  record Inv (r : Reverse) : Type 0 where
    reached : (k : String) → contains r.order k ≡ true → Reach rev start k
    marked : (k : String) → contains r.visited k ≡ true → contains r.order k ≡ true
    queued : (k : String) → contains r.queue k ≡ true → contains r.order k ≡ true
    begun : contains r.order start ≡ true
    entered : Entered start r.order r.visited
    expanded :
        (u v : String)
        → contains r.order u ≡ true
        → contains r.queue u ≡ false
        → contains (targets rev u) v ≡ true
        → contains r.order v ≡ true

  -- What reverseTraverse collects: the start, and behind it, each once, nodes that it can reach along
  -- the links, and all of them where it collects fewer than the limit.
  pub record Upstream (limit : ℕ) (order : List String) : Type 0 where
    pub once : Once start order
    pub sound : (k : String) → contains order k ≡ true → Reach rev start k
    pub complete :
        ltb (length order) limit ≡ true → (k : String) → Reach rev start k → contains order k ≡ true

  Inv-step :
      (r : Reverse) (id : String) (rest : List String)
      → r.queue ≡ id ∷ rest
      → Inv r
      → Inv (reverse_scan (targets rev id) (record r { queue = rest }))
  Inv-step r id rest e inv =
      let popped = record r { queue = rest } in
      let s = reverse_scan-Scanned (targets rev id) (record r { queue = rest }) in
      let here : contains r.order id ≡ true = inv.queued id (rw e (ground (arith, eq_self id))) in
      record {
        reached = λ k h. elim (Bool-cases (contains r.order k)) [
          | inl old ↦ inv.reached k old
          | inr new ↦ Reach.step (inv.reached id here) (ground (arith, s.from_edges k h))
        ];
        marked = s.marked inv.marked;
        queued = s.queue_listed (λ k h. inv.queued k (rw e (ground arith)));
        begun = s.keeps start inv.begun;
        entered = Entered-reverse_scan start (targets rev id) popped inv.entered;
        expanded = λ u v h waits v_next. elim (Bool-cases (id == u)) [
          | inl same ↦ s.marked inv.marked v (
              s.taken v (
                subst (λ w. contains (targets rev w) v ≡ true) (sym ((eq_iff id u).0 same)) v_next))
          | inr other ↦ s.keeps v (
              inv.expanded u v (ground (arith, s.waits u h))
                (rw e (ground (arith, s.keeps_queue u))) v_next)
        ];
      }

  Inv-Upstream :
      (r : Reverse) (limit : ℕ)
      → Inv r
      → (ltb (length r.order) limit ≡ true → r.queue ≡ [])
      → Upstream limit r.order
  Inv-Upstream r limit inv ended = record {
    once = inv.entered.once;
    sound = inv.reached;
    complete = λ below k path. closed (ended below) k path;
  }
    where
      closed : r.queue ≡ [] → (k : String) → Reach rev start k → contains r.order k ≡ true
      closed e k Reach.here = inv.begun
      closed e k (Reach.step {u = u} {v = v} path next) =
          inv.expanded u v (closed e u path) (rw e refl) next

  reverse_loop-Upstream :
      (limit fuel : ℕ) (r : Reverse)
      → Inv r
      → length r.order + fuel ≡ limit + length r.queue
      → (order : List String) × (reverse_loop rev limit fuel r ≡ some order) × Upstream limit order
  unfolding reverse_loop
  reverse_loop-Upstream limit zero r inv enough =
      (r.order, ground arith, Inv-Upstream r limit inv (λ below. ground arith))
  reverse_loop-Upstream limit (suc fuel) r inv enough = elim (List-cases r.queue) [
    | inl e ↦ (r.order, rw e, Inv-Upstream r limit inv (λ below. e))
    | inr (id, rest, e) ↦
        let s = reverse_scan-Scanned (targets rev id) (record r { queue = rest }) in
        let (order, found, good) =
          reverse_loop-Upstream limit fuel
            (reverse_scan (targets rev id) (record r { queue = rest })) (Inv-step r id rest e inv)
            (ground (arith, s.counted, ap length e)) in
        elim (Bool-cases (ltb (length r.order) limit)) [
          | inl below ↦ (order, rw (e, below) found, good)
          | inr full ↦ (
            r.order,
            rw (e, full),
            Inv-Upstream r limit inv (λ below. absurd (false≢true (sym full ∙ below))),
          )
        ]
  ]

  -- reverseTraverse always ends. It collects the start and, behind it, each node at most once. Every
  -- node that it collects can be reached from the start along the links that it follows, and where
  -- it collects fewer than the limit it collects every node that can be reached.
  pub reverse_order-Upstream :
      (limit : ℕ)
      → (order : List String) × (reverse_order rev start limit ≡ some order) × Upstream limit order
  unfolding reverse_order
  reverse_order-Upstream limit = reverse_loop-Upstream limit limit _ first (omega arith)
    where
      first : Inv (record { visited = []; order = start ∷ []; queue = start ∷ [] })
      first = record {
        reached = λ k h. subst (Reach rev start) ((eq_iff start k).0 (ground arith)) Reach.here;
        marked = λ k h. ground arith;
        queued = λ k h. h;
        begun = ground (arith, eq_self start);
        entered = record {
          once = record { others = []; shape = refl; distinct = tt };
          seen = λ k h. ground arith;
        };
        expanded = λ u v h waits next. ground arith;
      }
