-- ===== src/Graph/Traversal/Breadth.antt =====
-- The breadth-first walk of Traverse: its rounds, and what its order holds.
use incident_investigator.Prelude.{
  ℕ, zero, suc, ◌+◌, ◌≤◌, ◌<◌, ◌≡◌, refl, ap, String, true, not, ◌&&◌, ◌||◌, some, List, [], ◌∷◌,
  ◌++◌, eq_iff, contains, length, ltb, filter, List-cases, Bool-cases, inl, inr, ◌⊎◌, arith,
  Distinct, Distinct-concat, contains-concat, contains-append, length-append, subst,
}
use incident_investigator.Graph.Links.{
  Links, targets, Reach, here, step, pending, pending-le, pending-concat, length-filter-le,
  contains-filter,
}
use incident_investigator.Graph.Traversal.{Walk, bfs_step, bfs_loop, bfs_start, bfs_fuel}

module _ (adj : Links) where
  -- A round takes an id off the queue, and queues no more ids than links leave the set.
  abbrev work : Walk → ℕ
  work w = length w.queue + pending adj w.visited

  work-bfs_step :
      (w : Walk) (id : String) (rest : List String)
      → w.queue ≡ id ∷ rest
      → work (bfs_step adj w id rest) < work w
  unfolding bfs_step
  work-bfs_step w id rest e = ground (
    arith,
    pending-concat adj w.visited id,
    length-append rest (filter (λ next. not (contains (id ∷ w.visited) next)) (targets adj id)),
    length-filter-le (λ next. not (contains (id ∷ w.visited) next)) (targets adj id),
  )

  bfs_loop_ends :
      (limit fuel : ℕ) (w : Walk)
      → work w < fuel
      → (t : Walk) × (bfs_loop adj limit fuel w ≡ some t)
  unfolding bfs_loop
  bfs_loop_ends limit zero w h = absurd (omega arith)
  bfs_loop_ends limit (suc fuel) w h = elim (List-cases w.queue) [
    | inl empty ↦ (w, ground arith)
    | inr (id, rest, e) ↦ elim (Bool-cases (ltb (length w.order) limit)) [
      | inl more ↦
          let (t, ends) =
            bfs_loop_ends limit fuel (bfs_step adj w id rest)
              (omega (arith, work-bfs_step w id rest e)) in
          (t, ground arith)
      | inr full ↦ (w, ground arith)
    ]
  ]

  -- An invariant that a round keeps holds at the end, where the queue is empty or the limit reached.
  bfs_loop_rule :
      (P : Walk → Type 0) (limit : ℕ)
      → ((w : Walk) (id : String) (rest : List String)
          → w.queue ≡ id ∷ rest
          → length w.order < limit
          → P w
          → P (bfs_step adj w id rest))
      → (fuel : ℕ) (w t : Walk) → P w
      → bfs_loop adj limit fuel w ≡ some t
      → P t × ((t.queue ≡ []) ⊎ (limit ≤ length t.order))
  unfolding bfs_loop
  bfs_loop_rule P limit keep zero w t p h = cc
  bfs_loop_rule P limit keep (suc fuel) w t p h = elim (List-cases w.queue) [
    | inl empty ↦ let e : w ≡ t = ground arith in (subst P e p, inl (ground arith))
    | inr (id, rest, e) ↦ elim (Bool-cases (ltb (length w.order) limit)) [
      | inl more ↦
          bfs_loop_rule P limit keep fuel (bfs_step adj w id rest) t
            (keep w id rest e (ground arith) p) (ground arith)
      | inr full ↦ let e' : w ≡ t = ground arith in (subst P e' p, inr (ground arith))
    ]
  ]

  -- What holds of the walk between two rounds.
  record Inv (start : String) (limit : ℕ) (w : Walk) : Type 0 where
    distinct : Distinct w.order
    same : (k : String) → contains w.visited k ≡ contains w.order k
    bounded : length w.order ≤ limit
    started : (contains w.visited start ≡ true) ⊎ (contains w.queue start ≡ true)
    ordered : (k : String) → contains w.order k ≡ true → Reach adj start k
    queued : (k : String) → contains w.queue k ≡ true → Reach adj start k
    closed :
        (u v : String)
        → contains w.visited u ≡ true
        → contains (targets adj u) v ≡ true
        → (contains w.visited v ≡ true) ⊎ (contains w.queue v ≡ true)

  Inv-start : (start : String) (limit : ℕ) → Inv start limit (bfs_start start)
  unfolding bfs_start
  Inv-start start limit = record {
    distinct = tt;
    same = λ k. refl;
    bounded = omega arith;
    started = inr (ground (arith, eq_iff start start));
    ordered = λ k h. cc;
    queued = λ k h. subst (Reach adj start) (ground (arith, eq_iff start k)) here;
    closed = λ u v h. cc;
  }

  module _ (start : String) (limit : ℕ) (w : Walk) (id : String) (rest : List String)
      (e : w.queue ≡ id ∷ rest) (room : length w.order < limit) (inv : Inv start limit w) where
    -- What the round queues: the targets that were not visited.
    abbrev fresh : List String
    fresh = filter (λ next. not (contains (id ∷ w.visited) next)) (targets adj id)

    contains-queue :
        (k : String)
        → contains (rest ++ fresh) k
          ≡ (contains rest k || (contains (targets adj id) k && not (contains (id ∷ w.visited) k)))
    contains-queue k = ground (
      arith,
      contains-append rest fresh k,
      contains-filter (λ next. not (contains (id ∷ w.visited) next)) (targets adj id) k,
    )

    head_reached : Reach adj start id
    head_reached = inv.queued id (ground (arith, eq_iff id id))

    rest_reached : (k : String) → contains rest k ≡ true → Reach adj start k
    rest_reached k h = inv.queued k (ground arith)

    new_in_order :
        (k : String)
        → contains (bfs_step adj w id rest).order k ≡ true
        → (contains w.order k ≡ true) ⊎ (id ≡ k)
    unfolding bfs_step
    new_in_order k h = ground (arith, contains-concat w.order id k, eq_iff id k)

    new_in_queue :
        (k : String)
        → contains (bfs_step adj w id rest).queue k ≡ true
        → (contains rest k ≡ true) ⊎ (contains (targets adj id) k ≡ true)
    unfolding bfs_step
    new_in_queue k h = ground (arith, contains-queue k)

    Inv-bfs_step : Inv start limit (bfs_step adj w id rest)
    unfolding bfs_step
    Inv-bfs_step = record {
      distinct = ground (arith, inv.distinct, Distinct-concat w.order id, inv.same id);
      same = λ k. ground (arith, inv.same k, contains-concat w.order id k);
      bounded = ground (arith, inv.bounded, length-append w.order (id ∷ []));
      started = ground (arith, inv.started, contains-queue start, eq_iff id start);
      ordered = λ k h. elim (new_in_order k h) [
        | inl old ↦ inv.ordered k old
        | inr new ↦ subst (Reach adj start) new head_reached
      ];
      queued = λ k h. elim (new_in_queue k h) [
        | inl old ↦ rest_reached k old
        | inr new ↦ step head_reached new
      ];
      closed = λ u v h l. ground (
        arith,
        inv.closed u v,
        contains-queue v,
        eq_iff id u,
        eq_iff id v,
        ap (targets adj) {x = id} {y = u},
      );
    }

-- What a list of ids holds that was collected from a start under a limit.
pub record Collected (adj : Links) (start : String) (limit : ℕ) (order : List String) : Type 0 where
  pub distinct : Distinct order
  pub bounded : length order ≤ limit
  pub sound : (k : String) → contains order k ≡ true → Reach adj start k
  pub complete : length order < limit → (k : String) → Reach adj start k → contains order k ≡ true

-- With an empty queue the visited ids are closed under links.
complete_of_empty :
    (adj : Links) (start : String) (limit : ℕ) (w : Walk)
    → Inv adj start limit w
    → w.queue ≡ []
    → {k : String} → Reach adj start k
    → contains w.visited k ≡ true
complete_of_empty adj start limit w inv e here = ground (arith, inv.started)
complete_of_empty adj start limit w inv e (step {u} {v} r l) =
    ground (arith, inv.closed u v, complete_of_empty adj start limit w inv e r)

pub bfs_loop-Collected :
    (adj : Links) (start : String) (limit : ℕ)
    → (w : Walk) × (bfs_loop adj limit (bfs_fuel adj) (bfs_start start) ≡ some w)
      × Collected adj start limit w.order
unfolding bfs_fuel
bfs_loop-Collected adj start limit =
    let (w, ends) =
      bfs_loop_ends adj limit (bfs_fuel adj) (bfs_start start)
        (unfold bfs_start in omega (arith, pending-le adj [])) in
    let (inv, stopped) =
      bfs_loop_rule adj (Inv adj start limit) limit
        (λ w id rest e room inv. Inv-bfs_step adj start limit w id rest e room inv) (bfs_fuel adj)
        (bfs_start start) w (Inv-start adj start limit) ends in
    (
      w,
      ends,
      record {
        distinct = inv.distinct;
        bounded = inv.bounded;
        sound = inv.ordered;
        complete = λ room k r. elim stopped [
          | inl empty ↦ rw (← inv.same k) (complete_of_empty adj start limit w inv empty r)
          | inr full ↦ absurd (omega arith)
        ];
      },
    )
