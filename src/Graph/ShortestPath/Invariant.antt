-- ===== src/Graph/ShortestPath/Invariant.antt =====
-- The state of the search of ShortestPath, and its map of parents.
use incident_investigator.Prelude.{
  ℕ, suc, ◌+◌, ◌≤◌, ◌<◌, ◌≡◌, ◌≢◌, sym, ◌∙◌, ap, false≢true, String, Bool, true, false, ◌||◌, none,
  some, List, [], ◌∷◌, ◌++◌, ◌==◌, eq_iff, if◌then◌else◌, contains, length, Bool-cases, inl, inr,
  ◌⊎◌, arith, contains-concat, length-append, subst,
}
use incident_investigator.Prelude.Dict.{Dict, lookup, insert, lookup-insert}
use incident_investigator.Graph.Links.{Links, targets}
use incident_investigator.Graph.ShortestPath.{Search, scan}

-- `v` lies `n` parents below the source.
pub data Tree (adj : Links) (parent : Dict String) (from : String) : ℕ → String → Type 0 where
  root : Tree adj parent from 0 from
  child :
      {n : ℕ} {u v : String}
      → Tree adj parent from n u
      → from ≢ v
      → lookup v parent ≡ some u
      → contains (targets adj u) v ≡ true
      → Tree adj parent from (suc n) v

-- A new entry for an unvisited node leaves the tree as it was.
Tree-insert :
    {adj : Links} {parent : Dict String} {from : String} {n : ℕ} {v : String} (next cur : String)
    → lookup next parent ≡ none
    → Tree adj parent from n v
    → Tree adj (insert next cur parent) from n v
Tree-insert next cur h root = root
Tree-insert {parent = parent} next cur h (child {u} {v} t ne e l) =
    child (Tree-insert next cur h t) ne
      (ground (arith, lookup-insert next v cur parent, eq_iff next v)) l

-- The links whose target is not in a set.
pub unseen : Links → List String → ℕ
unseen [] seen = 0
unseen ((u, v) ∷ ls) seen = (if contains seen v then 0 else 1) + unseen ls seen

pub unseen-le : (ls : Links) (seen : List String) → unseen ls seen ≤ length ls
unfolding unseen
unseen-le [] seen = omega arith
unseen-le ((u, v) ∷ ls) seen = ground (arith, unseen-le ls seen)

-- A node that enters the set takes the links to it.
unseen-cons_le :
    (ls : Links) (seen : List String) (v : String) → unseen ls (v ∷ seen) ≤ unseen ls seen
unfolding unseen
unseen-cons_le [] seen v = omega arith
unseen-cons_le ((x, y) ∷ ls) seen v = ground (arith, unseen-cons_le ls seen v)

unseen-cons :
    (ls : Links) (seen : List String) (u v : String)
    → contains (targets ls u) v ≡ true
    → contains seen v ≡ false
    → unseen ls (v ∷ seen) < unseen ls seen
unfolding unseen targets
unseen-cons [] seen u v h new = cc
unseen-cons ((x, y) ∷ ls) seen u v h new = ground (
  arith,
  unseen-cons ls seen u v,
  unseen-cons_le ls seen v,
  eq_iff y v,
  eq_iff v y,
  ap (contains seen) {x = y} {y = v},
)

module _ (adj : Links) (from to : String) where
  -- The rounds that are left at most.
  abbrev pub work : Search → ℕ
  work s = length s.queue + unseen adj s.visited

  -- What holds of the search while the targets of the nodes in `busy` are looked at.
  pub record Inv (busy : String → Bool) (s : Search) : Type 0 where
    pub tree :
        (v : String)
        → contains s.visited v ≡ true
        → (n : ℕ) × Tree adj s.parent from n v × (n < length s.visited)
    pub absent : (v : String) → contains s.visited v ≡ false → lookup v s.parent ≡ none
    pub source : contains s.visited from ≡ true
    pub closed :
        (u v : String)
        → contains s.visited u ≡ true
        → contains (targets adj u) v ≡ true
        → (contains s.visited v ≡ true) ⊎ ((contains s.queue u || busy u) ≡ true)
    pub queued : (u : String) → contains s.queue u ≡ true → contains s.visited u ≡ true
    pub searching : s.found ≡ false
    pub goal : contains s.visited to ≡ false

  module _ (busy : String → Bool) (s : Search) (cur next : String) (inv : Inv busy s)
      (expanded : contains s.visited cur ≡ true) (linked : contains (targets adj cur) next ≡ true)
      (new : contains s.visited next ≡ false) where
    marked-Tree :
        (v : String)
        → contains (next ∷ s.visited) v ≡ true
        → (n : ℕ) × Tree adj (insert next cur s.parent) from n v × (n < suc (length s.visited))
    marked-Tree v h = elim (Bool-cases (next == v)) [
      | inl same ↦
          let (n, t, b) = inv.tree cur expanded in
          let e : next ≡ v = ground (arith, eq_iff next v) in
          (
            suc n,
            child (Tree-insert next cur (inv.absent next new) t) (λ e'. ground (arith, inv.source))
                (ground (arith, lookup-insert next v cur s.parent))
                (subst (λ x. contains (targets adj cur) x ≡ true) e linked),
            omega arith,
          )
      | inr other ↦
          let (n, t, b) = inv.tree v (ground arith) in
          (n, Tree-insert next cur (inv.absent next new) t, omega arith)
    ]

    mark-Inv :
        (next == to) ≡ false
        → Inv busy (record {
          parent = insert next cur s.parent;
          visited = next ∷ s.visited;
          queue = s.queue ++ next ∷ [];
          found = s.found;
        })
    mark-Inv other = record {
      tree = marked-Tree;
      absent =
          λ v h. ground (arith, inv.absent v, lookup-insert next v cur s.parent, eq_iff next v);
      source = ground (arith, inv.source);
      closed =
          λ u v h l. ground (arith, inv.closed u v, contains-concat s.queue next u, eq_iff next u);
      queued = λ u h. ground (arith, inv.queued u, contains-concat s.queue next u, eq_iff next u);
      searching = inv.searching;
      goal = ground (arith, inv.goal);
    }

  -- What the inner loop leaves: the goal below the source, or the invariant with the targets visited.
  pub record Scanned (busy : String → Bool) (s t : Search) (ns : List String) : Type 0 where
    pub hit : t.found ≡ true → (n : ℕ) × Tree adj t.parent from n to × (n < length t.visited)
    pub miss : t.found ≡ false → Inv busy t
    pub covered :
        t.found ≡ false → (v : String) → contains ns v ≡ true → contains t.visited v ≡ true
    pub more : (v : String) → contains s.visited v ≡ true → contains t.visited v ≡ true
    pub less : work t ≤ work s

  -- A target that was visited before changes nothing.
  Scanned-pass :
      (busy : String → Bool) (s t : Search) (next : String) (ns : List String)
      → contains s.visited next ≡ true
      → Scanned busy s t ns
      → Scanned busy s t (next ∷ ns)
  Scanned-pass busy s t next ns old rest = record {
    hit = rest.hit;
    miss = rest.miss;
    covered = λ f v h. ground (arith, rest.covered f v, rest.more v, eq_iff next v);
    more = rest.more;
    less = rest.less;
  }

  -- The search for the goal ends at a new target.
  Scanned-goal :
      (busy : String → Bool) (s : Search) (cur next : String) (ns : List String)
      → Inv busy s
      → contains s.visited cur ≡ true
      → contains (targets adj cur) next ≡ true
      → contains s.visited next ≡ false
      → (next == to) ≡ true
      → Scanned busy s
          (record {
            parent = insert next cur s.parent;
            visited = next ∷ s.visited;
            queue = s.queue;
            found = true;
          })
          (next ∷ ns)
  Scanned-goal busy s cur next ns inv expanded link new goal = record {
    hit = λ h.
        subst
          (λ x.
            (n : ℕ) × Tree adj (insert next cur s.parent) from n x × (n < suc (length s.visited)))
          ((eq_iff next to).0 goal)
          (marked-Tree busy s cur next inv expanded link new next
            (ground (arith, eq_iff next next)));
    miss = λ h. absurd (false≢true (sym h));
    covered = λ h. absurd (false≢true (sym h));
    more = λ v h. ground arith;
    less = omega (arith, unseen-cons adj s.visited cur next link new);
  }

  -- Another new target joins the queue.
  abbrev joined : String → String → Search → Search
  joined cur next s = record {
    parent = insert next cur s.parent;
    visited = next ∷ s.visited;
    queue = s.queue ++ next ∷ [];
    found = s.found;
  }

  Scanned-join :
      (busy : String → Bool) (s t : Search) (cur next : String) (ns : List String)
      → contains (targets adj cur) next ≡ true
      → contains s.visited next ≡ false
      → Scanned busy (joined cur next s) t ns
      → Scanned busy s t (next ∷ ns)
  Scanned-join busy s t cur next ns link new rest = record {
    hit = rest.hit;
    miss = rest.miss;
    covered = λ f v h. ground (arith, rest.covered f v, rest.more v, eq_iff next v);
    more = λ v h. rest.more v (ground arith);
    less = omega (
      arith,
      rest.less,
      length-append s.queue (next ∷ []),
      unseen-cons adj s.visited cur next link new,
    );
  }

  pub scan-Scanned :
      (busy : String → Bool) (cur : String) (s : Search) (ns : List String)
      → Inv busy s
      → contains s.visited cur ≡ true
      → ((v : String) → contains ns v ≡ true → contains (targets adj cur) v ≡ true)
      → Scanned busy s (scan to cur s ns) ns
  unfolding scan
  scan-Scanned busy cur s [] inv expanded linked = record {
    hit = λ h. absurd (false≢true (sym inv.searching ∙ h));
    miss = λ _. inv;
    covered = λ _ v h. cc;
    more = λ v h. h;
    less = omega arith;
  }
  scan-Scanned busy cur s (next ∷ ns) inv expanded linked =
      let link = linked next (ground (arith, eq_iff next next)) in
      elim (Bool-cases (contains s.visited next)) [
        | inl old ↦ rw old (
            Scanned-pass busy s _ next ns old
              (scan-Scanned busy cur s ns inv expanded (λ v h. linked v (ground arith))))
        | inr new ↦ elim (Bool-cases (next == to)) [
          | inl goal ↦ rw (new, goal) (Scanned-goal busy s cur next ns inv expanded link new goal)
          | inr other ↦
              rw (new, other)
                (Scanned-join busy s _ cur next ns link new (
                  scan-Scanned busy cur (joined cur next s) ns
                    (mark-Inv busy s cur next inv expanded link new other) (ground arith)
                    (λ v h. linked v (ground arith))))
        ]
      ]
