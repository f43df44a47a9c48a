-- ===== src/Prelude/Dict.antt =====
-- Go's maps with text keys, as association lists. Go leaves the order of iteration open.
use Prim.Native.String.{String}
use mathlib.Core.Path.{◌≡◌, refl, ap, subst}
use mathlib.Core.Bool.{Bool, true, false, ◌||◌}
use mathlib.Core.Logic.{inl, inr}
use mathlib.Core.List.{List, [], ◌∷◌}
use mathlib.Core.Option.{Option, none, some, some-injective}
use native.Mathlib.Omega.{arith}
use text.Mathlib.Text.{◌==◌}
use text.Mathlib.TextEquality.{eq_iff}
use incident_investigator.Prelude.Tests.{if◌then◌else◌, Bool-cases}
use incident_investigator.Prelude.Sets.{contains, Distinct}

abbrev pub Dict {ℓ} : Type ℓ → Type ℓ
Dict V = List (String × V)

module _ {ℓ} {V : Type ℓ} where
  -- m[k] with its `ok`
  unfoldable pub lookup : String → Dict V → Option V
  lookup key [] = none
  lookup key ((at, value) ∷ others) =
      let found = lookup key others in if at == key then some value else found

  -- m[k] = v
  unfoldable pub insert : String → V → Dict V → Dict V
  insert key value [] = (key, value) ∷ []
  insert key value ((at, old) ∷ others) =
      let below = insert key value others in
      if at == key then (key, value) ∷ others else (at, old) ∷ below

  -- Keep the entries that pass a test: `delete` in a loop over the map.
  unfoldable pub retain : (String → V → Bool) → Dict V → Dict V
  retain p [] = []
  retain p ((j, v) ∷ m) = let rest = retain p m in if p j v then (j, v) ∷ rest else rest

  unfoldable pub values : Dict V → List V
  values [] = []
  values ((j, v) ∷ m) = v ∷ values m

  abbrev pub keys : Dict V → List String
  keys [] = []
  keys ((j, v) ∷ m) = j ∷ keys m

  -- A write is seen at its key and nowhere else.
  pub lookup-insert :
      (written read : String) (value : V) (entries : Dict V)
      → lookup read (insert written value entries)
        ≡ (if written == read then some value else lookup read entries)
  unfolding lookup insert
  lookup-insert written read value [] = refl
  lookup-insert written read value ((at, old) ∷ others) = ground (
    lookup-insert written read value others,
    eq_iff at written,
    eq_iff at read,
    eq_iff written read,
    arith,
  )

  pub lookup_absent : (k : String) (m : Dict V) → contains (keys m) k ≡ false → lookup k m ≡ none
  unfolding lookup
  lookup_absent k [] h = refl
  lookup_absent k ((j, v) ∷ m) h = ground (arith, lookup_absent k m)

  pub contains-keys :
      (k : String) (m : Dict V) {v : V} → lookup k m ≡ some v → contains (keys m) k ≡ true
  unfolding lookup
  contains-keys k [] h = cc
  contains-keys k ((j, w) ∷ m) {v} h = ground (arith, contains-keys k m {v = v})

  -- Deletion in a map: what passes the test stays, all else is absent.
  abbrev pub kept : (String → V → Bool) → String → Option V → Option V
  kept p k none = none
  kept p k (some v) = if p k v then some v else none

  pub contains-keys-retain :
      (p : String → V → Bool) (m : Dict V) (k : String)
      → contains (keys m) k ≡ false
      → contains (keys (retain p m)) k ≡ false
  unfolding retain
  contains-keys-retain p [] k h = refl
  contains-keys-retain p ((j, v) ∷ m) k h = ground (arith, contains-keys-retain p m k)

  pub retain-Distinct :
      (p : String → V → Bool) (m : Dict V) → Distinct (keys m) → Distinct (keys (retain p m))
  unfolding retain
  retain-Distinct p [] h = tt
  retain-Distinct p ((j, v) ∷ m) h = ground (arith, retain-Distinct p m, contains-keys-retain p m j)

  pub contains-keys-insert :
      (k : String) (v : V) (m : Dict V) (j : String)
      → contains (keys (insert k v m)) j ≡ (contains (keys m) j || (k == j))
  unfolding insert
  contains-keys-insert k v [] j = ground arith
  contains-keys-insert k v ((i, w) ∷ m) j =
      ground (arith, contains-keys-insert k v m j, eq_iff i k, eq_iff i j, eq_iff k j)

  pub insert-Distinct :
      (k : String) (v : V) (m : Dict V) → Distinct (keys m) → Distinct (keys (insert k v m))
  unfolding insert
  insert-Distinct k v [] h = (refl, tt)
  insert-Distinct k v ((i, w) ∷ m) h =
      ground (arith, insert-Distinct k v m, contains-keys-insert k v m i, eq_iff i k, eq_iff k i)

  pub lookup-retain :
      (p : String → V → Bool) (k : String) (m : Dict V)
      → Distinct (keys m)
      → lookup k (retain p m) ≡ kept p k (lookup k m)
  unfolding lookup retain
  lookup-retain p k [] d = refl
  lookup-retain p k ((j, v) ∷ m) d = ground (
    arith,
    lookup-retain p k m d.1,
    eq_iff j k,
    lookup_absent j m,
    ap (λ (s : String). lookup s m),
  )

module _ {ℓ} {V : Type ℓ} (Q : String → V → Type 0) where
  -- Every entry has the property.
  abbrev pub AllEntries : Dict V → Type 0
  AllEntries [] = Unit
  AllEntries ((at, value) ∷ others) = Q at value × AllEntries others

  pub insert-AllEntries :
      (key : String) (value : V) (entries : Dict V)
      → Q key value
      → AllEntries entries
      → AllEntries (insert key value entries)
  unfolding insert
  insert-AllEntries key value [] q h = (q, tt)
  insert-AllEntries key value ((at, old) ∷ others) q h =
      elim (at == key)
        as (λ b.
          AllEntries (if b then (key, value) ∷ others else (at, old) ∷ insert key value others)) [
            | true ↦ (q, h.1)
            | false ↦ (h.0, insert-AllEntries key value others q h.1)
          ]

  pub lookup-AllEntries :
      (key : String) (entries : Dict V) {value : V}
      → AllEntries entries
      → lookup key entries ≡ some value
      → Q key value
  unfolding lookup
  lookup-AllEntries key [] {value} h e = cc
  lookup-AllEntries key ((at, old) ∷ others) {value} h e = elim (Bool-cases (at == key)) [
    | inl hit ↦
        subst (λ v. Q key v) (some-injective old value (rw hit at e))
          (subst (λ k. Q k old) ((eq_iff at key).0 hit) h.0)
    | inr miss ↦ lookup-AllEntries key others h.1 (rw miss at e)
  ]
