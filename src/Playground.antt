-- ===== src/Playground.antt =====
-- contrib/playground/assert_that.c: matchers that assign to the local variable `result` of the assertion.
--
-- `result` is an `int` that is 0 or 1. The texts of the arguments, which the preprocessor quotes, are
-- arguments here.
pub mod Holding
pub mod Typed
pub mod Meanings
pub mod Writes
pub mod Listed
pub mod Described
pub mod ByType
pub mod Comparing
use pcut.Common.{
  ℕ, suc, ◌+◌, ◌%◌, Bool, true, false, not, List, [], ◌∷◌, ◌++◌, ℤ, pos, negsuc, int_eq, Bytes,
  codes, ◌==◌, if◌then◌else◌, take, decimal_int,
}

-- The matchers of the file, with their arguments; ANY_OF takes two at least.
pub data Matcher : Type 0 where
  negated : Matcher → Matcher
  either : Matcher → Matcher → Matcher
  any_of_int : List ℤ → Matcher
  any_of : ℤ → ℤ → List ℤ → Matcher
  equals is_int : ℤ → Matcher
  is_odd favourite : Matcher

-- The loop of ANY_OF_INTERNAL over `values`; `break` leaves it.
unfoldable pub any_of_internal : List ℤ → ℤ → Bool → Bool
any_of_internal [] actual result = result
any_of_internal (v ∷ vs) actual result =
    let rest = any_of_internal vs actual result in if int_eq v actual then true else rest

-- The values that ANY_OF passes to ANY_OF2, which names the first five.
abbrev pub any_of_values : ℤ → ℤ → List ℤ → List ℤ
any_of_values x y rest = take 5 (x ∷ (y ∷ (rest ++ x ∷ x ∷ x ∷ x ∷ x ∷ x ∷ x ∷ [])))

-- The five ANY_OF_CMP of ANY_OF2.
unfoldable pub any_of2 : List ℤ → ℤ → Bool → Bool
any_of2 [] actual result = result
any_of2 (v ∷ vs) actual result =
    let rest = any_of2 vs actual result in if int_eq v actual then true else rest

-- `actual % 2 == 0`
abbrev pub is_even : ℤ → Bool
is_even (pos n) = n % 2 == 0
is_even (negsuc n) = suc n % 2 == 0

-- A matcher with the value of `result` before it.
unfoldable pub run : Matcher → ℤ → Bool → Bool
unfolding any_of_internal any_of2
run (negated m) actual result = not (run m actual result)
run (either a b) actual result =
    let first = run a actual result in
    let second = run b actual first in if first then first else second
run (any_of_int vs) actual result = any_of_internal vs actual result
run (any_of x y rest) actual result = any_of2 (any_of_values x y rest) actual result
run (equals what) actual result = int_eq actual what
run (is_int what) actual result = int_eq actual what
run is_odd actual result = is_even actual
run favourite actual result = int_eq actual (pos 42)

-- ASSERT_THAT_INTERNAL for an `int`: what it prints.
unfoldable pub assert_that_int : Bytes → Bytes → ℤ → Matcher → Bytes
unfolding run decimal_int
assert_that_int actual_text matchers_name actual m =
    if not (run m actual false)
    then codes "Expected "
      ++ (actual_text
          ++ (codes " is "
              ++ (matchers_name ++ (codes " but got <" ++ (decimal_int actual ++ codes ">.\n")))))
    else []
