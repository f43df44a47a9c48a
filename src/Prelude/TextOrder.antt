-- ===== src/Prelude/TextOrder.antt =====
-- Go's `<` on texts goes one way.
use Prim.Native.Nat.compare as compare_ℕ
use Prim.Native.Nat.{ℕ, zero, suc, Ordering, compare as compare_ℕ}
use Prim.Native.Char.{code}
use Prim.Native.String.compare
use Prim.Native.String.{String, [], ◌∷◌, compare, then}
use mathlib.Core.Path.{◌≡◌, refl, sym, ◌∙◌, ap}
use mathlib.Core.Bool.{true, false, false≢true}
use text.Mathlib.Text.{is_lt}

abbrev flip : Ordering → Ordering
flip Ordering.lt = Ordering.gt
flip Ordering.eq = Ordering.eq
flip Ordering.gt = Ordering.lt

flip-then : (o r : Ordering) → then (flip o) (flip r) ≡ flip (then o r)
flip-then Ordering.lt r = refl
flip-then Ordering.eq r = refl
flip-then Ordering.gt r = refl

numbers_swap : (m n : ℕ) → compare_ℕ n m ≡ flip (compare_ℕ m n)
numbers_swap zero zero = refl
numbers_swap zero (suc n) = compare_ℕ.suc-zero n ∙ sym (ap flip (compare_ℕ.zero-suc n))
numbers_swap (suc m) zero = compare_ℕ.zero-suc m ∙ sym (ap flip (compare_ℕ.suc-zero m))
numbers_swap (suc m) (suc n) =
    compare_ℕ.suc-suc n m ∙ numbers_swap m n ∙ sym (ap flip (compare_ℕ.suc-suc m n))

texts_swap : (s t : String) → compare t s ≡ flip (compare s t)
texts_swap [] [] = compare.nil-nil ∙ sym (ap flip compare.nil-nil)
texts_swap [] (d ∷ t) = compare.cons-nil d t ∙ sym (ap flip (compare.nil-cons d t))
texts_swap (c ∷ s) [] = compare.nil-cons c s ∙ sym (ap flip (compare.cons-nil c s))
texts_swap (c ∷ s) (d ∷ t) =
    compare.cons-cons d c t s
    ∙ ap (λ o. then o (compare t s)) (numbers_swap (code c) (code d))
    ∙ ap (then (flip (compare_ℕ (code c) (code d)))) (texts_swap s t)
    ∙ flip-then (compare_ℕ (code c) (code d)) (compare s t)
    ∙ sym (ap flip (compare.cons-cons c d s t))

is_lt-flip : (o : Ordering) → is_lt o ≡ true → is_lt (flip o) ≡ false
is_lt-flip Ordering.lt h = refl
is_lt-flip Ordering.eq h = refl
is_lt-flip Ordering.gt h = absurd (false≢true h)

pub text_one_way : (s t : String) → is_lt (compare s t) ≡ true → is_lt (compare t s) ≡ false
text_one_way s t h = ap is_lt (texts_swap s t) ∙ is_lt-flip (compare s t) h
