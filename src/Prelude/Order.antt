-- ===== src/Prelude/Order.antt =====
-- Lists in order, and the order that the stable sort brings about.
use mathlib.Core.Path.{◌≡◌, refl, ◌∙◌}
use mathlib.Core.Logic.{inl, inr}
use mathlib.Core.Bool.{Bool, true, false, ◌||◌}
use Prim.Native.String.{String}
use mathlib.Core.List.{List, [], ◌∷◌, map, Permᴰ}
use mathlib.Core.List.Permᴰ
use native.Mathlib.Omega.{arith}
use text.Mathlib.Text.{◌==◌}
use text.Mathlib.TextEquality.{eq_iff}
use incident_investigator.Prelude.Sets.{contains, Distinct}
use incident_investigator.Prelude.Tests.{Bool-cases}
use incident_investigator.Prelude.Lists.{All}
use incident_investigator.Prelude.Sorting.{sort, insert_sorted, All-insert_sorted}

module _ {A : Type 0} (R : A → A → Type 0) where
  -- Each element is related to all that come after it.
  abbrev pub Ordered : List A → Type 0
  Ordered [] = Unit
  Ordered (x ∷ xs) = All (R x) xs × Ordered xs

  All-map : {P Q : A → Type 0} → ((x : A) → P x → Q x) → (xs : List A) → All P xs → All Q xs
  All-map f [] h = tt
  All-map f (x ∷ xs) h = (f x h.0, All-map f xs h.1)

  module _ (less : A → A → Bool) (trans : (x y z : A) → R x y → R y z → R x z)
      (before : (x y : A) → less x y ≡ true → R x y)
      (behind : (x y : A) → less y x ≡ false → R x y) where
    insert_sorted-Ordered : (x : A) (ys : List A) → Ordered ys → Ordered (insert_sorted less x ys)
    unfolding insert_sorted
    insert_sorted-Ordered x [] h = (tt, tt)
    insert_sorted-Ordered x (y ∷ ys) h = elim (Bool-cases (less y x)) [
      | inl e ↦
          rw e
            (All-insert_sorted (R y) less x ys (before y x e) h.0, insert_sorted-Ordered x ys h.1)
      | inr e ↦ rw e ((behind x y e, All-map (λ z. trans x y z (behind x y e)) ys h.0), h)
    ]

    pub sort-Ordered : (xs : List A) → Ordered (sort less xs)
    unfolding sort
    sort-Ordered [] = tt
    sort-Ordered (x ∷ xs) = insert_sorted-Ordered x (sort less xs) (sort-Ordered xs)

module _ {A : Type 0} where
  insert_sorted-Perm :
      (less : A → A → Bool) (x : A) (ys : List A) → Permᴰ (insert_sorted less x ys) (x ∷ ys)
  unfolding insert_sorted
  insert_sorted-Perm less x [] = Permᴰ.refl (x ∷ [])
  insert_sorted-Perm less x (y ∷ ys) = elim (Bool-cases (less y x)) [
    | inl e ↦
        rw e (Permᴰ.trans (Permᴰ.cons refl (insert_sorted-Perm less x ys)) (Permᴰ.swap refl refl))
    | inr e ↦ rw e (Permᴰ.refl (x ∷ y ∷ ys))
  ]

  pub sort-Perm : (less : A → A → Bool) (xs : List A) → Permᴰ (sort less xs) xs
  unfolding sort
  sort-Perm less [] = Permᴰ.nil
  sort-Perm less (x ∷ xs) =
      Permᴰ.trans (insert_sorted-Perm less x (sort less xs)) (Permᴰ.cons refl (sort-Perm less xs))

module _ {A : Type 0} (name : A → String) where
  contains-insert_sorted :
      (less : A → A → Bool) (x : A) (ys : List A) (s : String)
      → contains (map name (insert_sorted less x ys)) s
        ≡ ((name x == s) || contains (map name ys) s)
  unfolding insert_sorted
  contains-insert_sorted less x [] s = refl
  contains-insert_sorted less x (y ∷ ys) s = ground (arith, contains-insert_sorted less x ys s)

  pub contains-sort :
      (less : A → A → Bool) (xs : List A) (s : String)
      → contains (map name (sort less xs)) s ≡ contains (map name xs) s
  unfolding sort
  contains-sort less [] s = refl
  contains-sort less (x ∷ xs) s =
      ground (arith, contains-sort less xs s, contains-insert_sorted less x (sort less xs) s)

  insert_sorted-Distinct :
      (less : A → A → Bool) (x : A) (ys : List A)
      → contains (map name ys) (name x) ≡ false
      → Distinct (map name ys)
      → Distinct (map name (insert_sorted less x ys))
  unfolding insert_sorted
  insert_sorted-Distinct less x [] h d = (refl, tt)
  insert_sorted-Distinct less x (y ∷ ys) h d = elim (Bool-cases (less y x)) [
    | inl e ↦ rw e (
      ground (
        arith,
        contains-insert_sorted less x ys (name y),
        eq_iff (name x) (name y),
        eq_iff (name y) (name x),
      ),
      insert_sorted-Distinct less x ys (ground arith) d.1,
    )
    | inr e ↦ rw e (h, d)
  ]

  pub sort-Distinct :
      (less : A → A → Bool) (xs : List A)
      → Distinct (map name xs)
      → Distinct (map name (sort less xs))
  unfolding sort
  sort-Distinct less [] d = tt
  sort-Distinct less (x ∷ xs) d =
      insert_sorted-Distinct less x (sort less xs) (contains-sort less xs (name x) ∙ d.0)
        (sort-Distinct less xs d.1)
