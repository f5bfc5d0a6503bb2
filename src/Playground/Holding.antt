-- ===== src/Playground/Holding.antt =====
-- contrib/playground/assert_that.c: what the matchers mean.
use pcut.Common.{
  ◌≡◌, refl, ap, Bool, true, false, not, ◌||◌, List, [], ◌∷◌, ℤ, pos, int_eq, Bytes, take, arith,
  Bool-cases, inl, inr, ◌↔◌,
}
use pcut.Playground.{
  Matcher, negated, either, any_of_int, any_of, equals, is_int, is_odd, favourite, any_of_internal,
  any_of2, any_of_values, is_even, run, assert_that_int,
}

abbrev one_of : List ℤ → ℤ → Bool
one_of [] a = false
one_of (v ∷ vs) a = int_eq v a || one_of vs a

-- The condition that a matcher stands for: of the values of ANY_OF the first five count, and IS_ODD
-- stands for the even numbers.
abbrev pub holds : Matcher → ℤ → Bool
holds (negated m) a = not (holds m a)
holds (either m n) a = holds m a || holds n a
holds (any_of_int vs) a = one_of vs a
holds (any_of x y rest) a = one_of (x ∷ y ∷ take 3 rest) a
holds (equals what) a = int_eq a what
holds (is_int what) a = int_eq a what
holds is_odd a = is_even a
holds favourite a = int_eq a (pos 42)

any_of_internal-one_of : (vs : List ℤ) (a : ℤ) → any_of_internal vs a false ≡ one_of vs a
unfolding any_of_internal
any_of_internal-one_of [] a = refl
any_of_internal-one_of (v ∷ vs) a = ground (arith, any_of_internal-one_of vs a)

any_of2-one_of :
    (x y : ℤ) (rest : List ℤ) (a : ℤ)
    → any_of2 (any_of_values x y rest) a false ≡ one_of (x ∷ y ∷ take 3 rest) a
unfolding any_of2
any_of2-one_of x y [] a = ground arith
any_of2-one_of x y (u ∷ []) a = ground arith
any_of2-one_of x y (u ∷ v ∷ []) a = ground arith
any_of2-one_of x y (u ∷ v ∷ w ∷ rest) a = ground arith

run-holds : (m : Matcher) (a : ℤ) → run m a false ≡ holds m a
unfolding run
run-holds (negated m) a = ap not (run-holds m a)
run-holds (either m n) a = elim (Bool-cases (holds m a)) [
  | inl e ↦ rw (run-holds m a, e) refl
  | inr e ↦ rw (run-holds m a, e) (run-holds n a)
]
run-holds (any_of_int vs) a = any_of_internal-one_of vs a
run-holds (any_of x y rest) a = any_of2-one_of x y rest a
run-holds (equals what) a = refl
run-holds (is_int what) a = refl
run-holds is_odd a = refl
run-holds favourite a = refl

-- An assertion of assert_that.c prints nothing exactly when the condition of its matcher holds:
-- NOT and OR mean what they say, ANY_OF_INT looks at all its values, ANY_OF at the first five of
-- them, and IS_ODD holds for the even numbers.
pub assert_that_int-holds :
    (t name : Bytes) (a : ℤ) (m : Matcher) → (assert_that_int t name a m ≡ []) ↔ (holds m a ≡ true)
unfolding assert_that_int
assert_that_int-holds t name a m = elim (Bool-cases (holds m a)) [
  | inl e ↦ rw (run-holds m a, e) (λ p. refl, λ p. refl)
  | inr e ↦ rw (run-holds m a, e) (λ p. cc, λ p. cc)
]
