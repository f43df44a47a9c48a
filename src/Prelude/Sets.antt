-- ===== src/Prelude/Sets.antt =====
-- Finite sets of texts: Go's `map[string]bool`, and slices of identifiers.
use Prim.Native.String.{String}
use mathlib.Core.Path.{◌≡◌, refl}
use mathlib.Core.Bool.{Bool, false, ◌||◌}
use mathlib.Core.List.{List, [], ◌∷◌, ◌++◌}
use native.Mathlib.Omega.{arith}
use text.Mathlib.Text.{◌==◌}
use text.Mathlib.TextEquality.{eq_iff}

abbrev pub contains : List String → String → Bool
contains [] a = false
contains (x ∷ xs) a = (x == a) || contains xs a

-- No text occurs twice.
abbrev pub Distinct : List String → Type 0
Distinct [] = Unit
Distinct (x ∷ xs) = (contains xs x ≡ false) × Distinct xs

pub contains-append :
    (xs ys : List String) (a : String) → contains (xs ++ ys) a ≡ (contains xs a || contains ys a)
contains-append [] ys a = refl
contains-append (x ∷ xs) ys a = ground (arith, contains-append xs ys a)

pub contains-concat :
    (xs : List String) (x a : String) → contains (xs ++ x ∷ []) a ≡ (contains xs a || (x == a))
contains-concat xs x a = ground (arith, contains-append xs (x ∷ []) a)

pub Distinct-concat :
    (xs : List String) (x : String) → Distinct xs → contains xs x ≡ false → Distinct (xs ++ x ∷ [])
Distinct-concat [] x d h = (refl, tt)
Distinct-concat (y ∷ ys) x d h = (
  ground (arith, contains-concat ys x y, eq_iff x y, eq_iff y x),
  Distinct-concat ys x d.1 (ground arith),
)
