-- ===== src/Graph/Links.antt =====
-- The adjacency maps that internal/graph builds from AllEdges: `adj[id]` is the list of the targets
-- of the edges out of `id`, in the order of the edges. The edges are kept as pairs.
use incident_investigator.Prelude.{
  ℕ, ◌+◌, ◌≤◌, ◌≡◌, refl, String, Bool, true, false, ◌&&◌, List, [], ◌∷◌, ◌==◌, eq_iff, arith,
  if◌then◌else◌, contains, length, filter, inl, inr, Bool-cases,
}
use incident_investigator.Model.Graph.{GraphEdge}

abbrev pub Links : Type 0
Links = List (String × String)

-- The loops that fill the map: an edge that fails the test is passed over.
unfoldable pub links : {F : Type 0} → (GraphEdge F → Bool) → List (GraphEdge F) → Links
links test [] = []
links test (e ∷ es) = if test e then (e.from, e.to) ∷ links test es else links test es

-- The map that reverseTraverse fills, from targets to sources.
unfoldable pub reverse_links : Links → Links
reverse_links [] = []
reverse_links ((u, v) ∷ ls) = (v, u) ∷ reverse_links ls

-- adj[id]
unfoldable pub targets : Links → String → List String
targets [] id = []
targets ((u, v) ∷ ls) id = if u == id then v ∷ targets ls id else targets ls id

-- The nodes that a walk along the links can reach.
pub data Reach (ls : Links) (start : String) : String → Type 0 where
  here : Reach ls start start
  step : {u v : String} → Reach ls start u → contains (targets ls u) v ≡ true → Reach ls start v

-- The links out of nodes that are not yet in a set.
unfoldable pub pending : Links → List String → ℕ
pending [] seen = 0
pending ((u, v) ∷ ls) seen = (if contains seen u then 0 else 1) + pending ls seen

pub pending-le : (ls : Links) (seen : List String) → pending ls seen ≤ length ls
unfolding pending
pending-le [] seen = omega arith
pending-le ((u, v) ∷ ls) seen = ground (arith, pending-le ls seen)

-- A node that enters the set takes its links with it.
pub pending-concat :
    (ls : Links) (seen : List String) (id : String)
    → contains seen id ≡ false
    → length (targets ls id) + pending ls (id ∷ seen) ≡ pending ls seen
unfolding pending targets
pending-concat [] seen id h = omega arith
pending-concat ((u, v) ∷ ls) seen id h =
    ground (arith, pending-concat ls seen id h, eq_iff u id, eq_iff id u)

pub length-filter-le : (p : String → Bool) (xs : List String) → length (filter p xs) ≤ length xs
length-filter-le p [] = omega arith
length-filter-le p (x ∷ xs) = ground (arith, length-filter-le p xs)

pub contains-filter :
    (p : String → Bool) (xs : List String) (a : String)
    → contains (filter p xs) a ≡ (contains xs a && p a)
contains-filter p [] a = refl
contains-filter p (x ∷ xs) a = elim (Bool-cases (x == a)) [
  | inl e ↦ ground (arith, contains-filter p xs a, eq_iff x a)
  | inr e ↦ ground (arith, contains-filter p xs a)
]
