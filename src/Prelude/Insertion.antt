-- ===== src/Prelude/Insertion.antt =====
-- The insertion sorts that the source writes out: each element moves towards the front while it goes
-- before the one ahead of it.
use mathlib.Core.Bool.{Bool}
use mathlib.Core.List.{List, [], ◌∷◌, reverse, foldl}
use incident_investigator.Prelude.Tests.{if◌then◌else◌}

module _ {ℓ} {A : Type ℓ} where
  -- The inner loop, on the elements ahead of `x` with the nearest first.
  unfoldable pub sink : (A → A → Bool) → A → List A → List A
  sink before x [] = x ∷ []
  sink before x (y ∷ ys) =
      let rest = sink before x ys in if before x y then y ∷ rest else x ∷ y ∷ ys

  unfoldable pub insertion_sort : (A → A → Bool) → List A → List A
  unfolding sink
  insertion_sort before xs = reverse (foldl (λ ahead x. sink before x ahead) [] xs)
