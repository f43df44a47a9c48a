-- ===== src/Prelude/Pairs.antt =====
-- Two lists whose elements belong together one by one.
use mathlib.Core.Path.{◌≡◌, refl, ◌∙◌, ap}
use mathlib.Core.Bool.{Bool, true, false}
use mathlib.Core.Logic.{inl, inr}
use mathlib.Core.List.{List, [], ◌∷◌, map}
use native.Mathlib.Omega.{arith}
use incident_investigator.Prelude.Tests.{Bool-cases}
use incident_investigator.Prelude.Sorting.{sort, insert_sorted}

module _ {A B : Type 0} where
  -- The lists are of one length, and the elements at each place are related.
  abbrev pub Pairs : (A → B → Type 0) → List A → List B → Type 0
  Pairs R [] [] = Unit
  Pairs R [] (y ∷ ys) = ⊥
  Pairs R (x ∷ xs) [] = ⊥
  Pairs R (x ∷ xs) (y ∷ ys) = R x y × Pairs R xs ys

  pub Pairs-map :
      (R : A → B → Type 0) (f : A → B)
      → ((x : A) → R x (f x))
      → (xs : List A) → Pairs R xs (map f xs)
  Pairs-map R f h [] = tt
  Pairs-map R f h (x ∷ xs) = (h x, Pairs-map R f h xs)

  -- Sorting images is sorting by what the comparison says of the images.
  insert_sorted-map :
      (less : B → B → Bool) (f : A → B) (x : A) (ys : List A)
      → insert_sorted less (f x) (map f ys) ≡ map f (insert_sorted (λ a b. less (f a) (f b)) x ys)
  unfolding insert_sorted
  insert_sorted-map less f x [] = refl
  insert_sorted-map less f x (y ∷ ys) = ground (arith, insert_sorted-map less f x ys)

  pub sort-map :
      (less : B → B → Bool) (f : A → B) (xs : List A)
      → sort less (map f xs) ≡ map f (sort (λ a b. less (f a) (f b)) xs)
  unfolding sort
  sort-map less f [] = refl
  sort-map less f (x ∷ xs) =
      ap (insert_sorted less (f x)) (sort-map less f xs)
      ∙ insert_sorted-map less f x (sort (λ a b. less (f a) (f b)) xs)

module _ {A : Type 0} (less : A → A → Bool) where
  -- No element is less than the one before it.
  abbrev pub Stepwise : List A → Type 0
  Stepwise [] = Unit
  Stepwise (x ∷ []) = Unit
  Stepwise (x ∷ y ∷ ys) = (less y x ≡ false) × Stepwise (y ∷ ys)

  -- The first element, if there is one, is not less than this.
  abbrev Ahead : A → List A → Type 0
  Ahead y [] = Unit
  Ahead y (z ∷ zs) = less z y ≡ false

  Stepwise-cons : (y : A) (zs : List A) → Ahead y zs → Stepwise zs → Stepwise (y ∷ zs)
  Stepwise-cons y [] a h = tt
  Stepwise-cons y (z ∷ zs) a h = (a, h)

  Ahead-head : (y : A) (zs : List A) → Stepwise (y ∷ zs) → Ahead y zs
  Ahead-head y [] h = tt
  Ahead-head y (z ∷ zs) h = h.0

  Stepwise-tail : (y : A) (zs : List A) → Stepwise (y ∷ zs) → Stepwise zs
  Stepwise-tail y [] h = tt
  Stepwise-tail y (z ∷ zs) h = h.1

  Ahead-insert_sorted :
      (y x : A) (zs : List A) → less x y ≡ false → Ahead y zs → Ahead y (insert_sorted less x zs)
  unfolding insert_sorted
  Ahead-insert_sorted y x [] e a = e
  Ahead-insert_sorted y x (z ∷ zs) e a = elim (Bool-cases (less z x)) [
    | inl p ↦ rw p a
    | inr p ↦ rw p e
  ]

  module _ (one_way : (x y : A) → less x y ≡ true → less y x ≡ false) where
    insert_sorted-Stepwise :
        (x : A) (ys : List A) → Stepwise ys → Stepwise (insert_sorted less x ys)
    unfolding insert_sorted
    insert_sorted-Stepwise x [] h = tt
    insert_sorted-Stepwise x (y ∷ ys) h = elim (Bool-cases (less y x)) [
      | inl e ↦ rw e (
          Stepwise-cons y (insert_sorted less x ys)
            (Ahead-insert_sorted y x ys (one_way y x e) (Ahead-head y ys h))
            (insert_sorted-Stepwise x ys (Stepwise-tail y ys h)))
      | inr e ↦ rw e (e, h)
    ]

    pub sort-Stepwise : (xs : List A) → Stepwise (sort less xs)
    unfolding sort
    sort-Stepwise [] = tt
    sort-Stepwise (x ∷ xs) = insert_sorted-Stepwise x (sort less xs) (sort-Stepwise xs)

module _ {A : Type 0} (less weaker : A → A → Bool)
    (implied : (x y : A) → less y x ≡ false → weaker y x ≡ false) where
  pub Stepwise-weaken : (xs : List A) → Stepwise less xs → Stepwise weaker xs
  Stepwise-weaken [] h = tt
  Stepwise-weaken (x ∷ []) h = tt
  Stepwise-weaken (x ∷ y ∷ ys) h = (implied x y h.0, Stepwise-weaken (y ∷ ys) h.1)
