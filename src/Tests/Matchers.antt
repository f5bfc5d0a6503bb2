-- ===== src/Tests/Matchers.antt =====
-- The matchers of contrib/playground at concrete values.
use pcut.Common.{
  ℕ, ◌+◌, ◌≡◌, refl, ◌↔◌, true, none, some, [], ◌∷◌, pos, negsuc, Bytes, codes, ltb, if◌then◌else◌,
  length, arith, decimal_int,
}
use pcut.Playground.{any_of_int, any_of, negated, is_odd, assert_that_int}
use pcut.Playground.Holding.{holds, assert_that_int-holds}
use pcut.Playground.Typed.{
  Matcher, is_equal, is_not, is_any_of, assertion_text_buffer_length, append, append_string,
  comparator_integer, append_integer, comparator_string, assert_that_typed, Coord,
}
use pcut.Playground.Meanings.{meaning, sentence, line}
use pcut.Playground.Described.{quoted, append_string-append, assert_that_typed-meaning}
use pcut.Playground.ByType.{append_str, append_int, coord_type, get_type_info, call_compare}
use pcut.Playground.Comparing.{is_known, call_compare-same, append_str-append}

assert_that_int-holds_example :
    (assert_that_int
        (codes "x")
        (codes "NOT( ANY_OF_INT(19, 42) )")
        (pos 42)
        (negated (any_of_int (pos 19 ∷ pos 42 ∷ [])))
      ≡ [])
    ↔ (holds (negated (any_of_int (pos 19 ∷ pos 42 ∷ []))) (pos 42) ≡ true)
assert_that_int-holds_example =
    assert_that_int-holds (codes "x") (codes "NOT( ANY_OF_INT(19, 42) )") (pos 42)
      (negated (any_of_int (pos 19 ∷ pos 42 ∷ [])))

-- An even number is taken for odd, and the sixth value is not looked at.
even_is_odd : assert_that_int (codes "x") (codes "IS_ODD()") (pos 42) is_odd ≡ []
unfolding assert_that_int
even_is_odd = refl

sixth_is_lost :
    assert_that_int
      (codes "x")
      (codes "m")
      (pos 6)
      (any_of (pos 1) (pos 2) (pos 3 ∷ pos 4 ∷ pos 5 ∷ pos 6 ∷ []))
    ≡ codes "Expected x is m but got <6>.\n"
unfolding assert_that_int
sixth_is_lost = refl

-- A value and the program's state as it was.
abbrev just : {V : Type 0} → V → ℕ → V × ℕ
just v u = (v, u)

abbrev greetings : Matcher ℕ Bytes
greetings = is_not (is_any_of (just (codes "hullo") ∷ just (codes "hello") ∷ []))

assert_that_typed-meaning_example :
    assert_that_typed comparator_string append_string
      (codes "greetings")
      (just (codes "hello"))
      (codes "m")
      greetings
      0
    ≡ (let told = meaning comparator_string quoted (codes "hello") greetings 0 in
        let text = sentence (codes "greetings") (quoted (codes "hello")) (codes "m") told.words in
        if ltb (length text) assertion_text_buffer_length
        then some (line told.holds text, told.user)
        else none)
assert_that_typed-meaning_example =
    assert_that_typed-meaning comparator_string append_string quoted (codes "greetings")
      (just (codes "hello")) (codes "m") greetings 0 append_string-append (omega arith, omega arith)

-- Each expression is computed once, the value of the assertion first.
abbrev next : ℕ → ℕ × ℕ
next u = (u, u + 1)

counted_run :
    assert_that_typed
      (λ a b. comparator_integer (pos a) (pos b))
      (λ n t. append_integer (pos n) t)
      (codes "x++")
      next
      (codes "m")
      (is_equal next)
      41
    ≡ some (codes "ERROR: Expected x++ is equal to 42 but got 41 [m].\n", 43)
unfolding assert_that_typed append_integer comparator_integer
counted_run = refl

-- Seven values are listed and complained about.
abbrev seven : Matcher ℕ ℕ
seven = is_any_of (next ∷ next ∷ next ∷ next ∷ next ∷ next ∷ next ∷ [])

seven_run :
    assert_that_typed
      (λ a b. comparator_integer (pos a) (pos b))
      (λ n t. append_integer (pos n) t)
      (codes "x")
      (just 3)
      (codes "m")
      seven
      1
    ≡ some (
      codes
          " OKAY: Expected x is any of { 1, 2, 3, 4, 5, 6, 7 !!! INTERNAL ERROR (PCUT_IS_ANY_OF too small) !!!  } but got 3 [m].\n",
      8,
    )
unfolding assert_that_typed append_integer comparator_integer
seven_run = refl

abbrev target : Coord
target = record { x = pos 4; y = negsuc 5 }

call_compare-same_example :
    (call_compare (get_type_info coord_type) target (record target { y = pos 6 }) ≡ some (pos 0))
    ↔ ((is_known coord_type ≡ true) × (target ≡ record target { y = pos 6 }))
call_compare-same_example = call_compare-same coord_type target (record target { y = pos 6 })

append_str-append_example :
    (append_str (codes "ab") (codes "Expected ") assertion_text_buffer_length
      ≡ append (codes "ab") (codes "Expected "))
    × (append_int (pos 42) (codes "Expected ") assertion_text_buffer_length
        ≡ append (codes "42") (codes "Expected "))
unfolding decimal_int
append_str-append_example =
    append_str-append (codes "ab") (codes "Expected ") (pos 42) (omega arith)
