-- ===== src/Prelude/Sorting.antt =====
-- `sort.SliceStable`, and `sort.Slice` where the keys differ: a stable insertion sort.
use Prim.Native.Nat.{suc}
use mathlib.Core.Path.{◌≡◌, refl}
use mathlib.Core.Bool.{Bool, true, false, ◌||◌}
use mathlib.Core.List.{List, [], ◌∷◌}
use native.Mathlib.Omega.{arith}
use incident_investigator.Prelude.Tests.{if◌then◌else◌}
use incident_investigator.Prelude.Lists.{any, length, All}

module _ {ℓ} {A : Type ℓ} where
  -- `less` is the comparison that the program hands to the sort.
  unfoldable pub insert_sorted : (A → A → Bool) → A → List A → List A
  insert_sorted less x [] = x ∷ []
  insert_sorted less x (y ∷ ys) =
      let rest = insert_sorted less x ys in if less y x then y ∷ rest else x ∷ y ∷ ys

  unfoldable pub sort : (A → A → Bool) → List A → List A
  unfolding insert_sorted
  sort less [] = []
  sort less (x ∷ xs) = insert_sorted less x (sort less xs)

  -- The order of a list does not matter to a search for an element.
  any-insert_sorted :
      (less : A → A → Bool) (q : A → Bool) (x : A) (ys : List A)
      → any q (insert_sorted less x ys) ≡ (q x || any q ys)
  unfolding insert_sorted
  any-insert_sorted less q x [] = refl
  any-insert_sorted less q x (y ∷ ys) = ground (arith, any-insert_sorted less q x ys)

  pub any-sort :
      (less : A → A → Bool) (q : A → Bool) (xs : List A) → any q (sort less xs) ≡ any q xs
  unfolding sort
  any-sort less q [] = refl
  any-sort less q (x ∷ xs) =
      ground (arith, any-sort less q xs, any-insert_sorted less q x (sort less xs))

  length-insert_sorted :
      (less : A → A → Bool) (x : A) (ys : List A)
      → length (insert_sorted less x ys) ≡ suc (length ys)
  unfolding insert_sorted
  length-insert_sorted less x [] = refl
  length-insert_sorted less x (y ∷ ys) = ground (arith, length-insert_sorted less x ys)

  pub length-sort : (less : A → A → Bool) (xs : List A) → length (sort less xs) ≡ length xs
  unfolding sort
  length-sort less [] = refl
  length-sort less (x ∷ xs) =
      ground (arith, length-sort less xs, length-insert_sorted less x (sort less xs))

module _ {ℓ κ} {A : Type ℓ} (Q : A → Type κ) where
  pub All-insert_sorted :
      (less : A → A → Bool) (x : A) (ys : List A) → Q x → All Q ys → All Q (insert_sorted less x ys)
  unfolding insert_sorted
  All-insert_sorted less x [] q h = (q, tt)
  All-insert_sorted less x (y ∷ ys) q h =
      elim (less y x) as (λ b. All Q (if b then y ∷ insert_sorted less x ys else x ∷ y ∷ ys)) [
        | true ↦ (h.0, All-insert_sorted less x ys q h.1)
        | false ↦ (q, h)
      ]

  pub All-sort : (less : A → A → Bool) (xs : List A) → All Q xs → All Q (sort less xs)
  unfolding sort
  All-sort less [] h = tt
  All-sort less (x ∷ xs) h = All-insert_sorted less x _ h.0 (All-sort less xs h.1)
