-- ===== src/Playground/Typed.antt =====
-- contrib/playground/assert_that_fmt.c: matchers that describe themselves in a text buffer.
--
-- `none` is a write behind the buffer, a call through a null pointer or a macro call that does not compile.
-- An expression that is an argument of a macro may change the state of the program. Each matcher sets
-- the temporary variable before it reads it, so that is a `let`. The text of a `long long` fits its 48
-- bytes.
use pcut.Common.{
  ℕ, zero, suc, ◌+◌, Bool, true, false, not, ◌&&◌, Option, none, some, List, [], ◌∷◌, ◌++◌, ℤ, pos,
  negsuc, int_eq, Bytes, codes, ltb, ◌==◌, if◌then◌else◌, length, decimal_int,
}

infixl 5 ◌>>=◌
abbrev pub ◌>>=◌ : {A B : Type 0} → Option A → (A → Option B) → Option B
none >>= f = none
some a >>= f = f a

-- PCUT_ASSERTION_TEXT_BUFFER_LENGTH
abbrev pub assertion_text_buffer_length : ℕ
assertion_text_buffer_length = 1024

-- `pcut_assertion_text_buffer_append`, on the string in the buffer; `strcat` writes a NUL behind it.
unfoldable pub append : Bytes → Bytes → Option Bytes
append text buffer =
    if ltb (length buffer + length text) assertion_text_buffer_length
    then some (buffer ++ text)
    else none

unfoldable pub append_integer : ℤ → Bytes → Option Bytes
unfolding append decimal_int
append_integer value buffer = append (decimal_int value) buffer

unfoldable pub append_string : Bytes → Bytes → Option Bytes
unfolding append
append_string value buffer = append (codes "\"") buffer >>= append value >>= append (codes "\"")

-- `a < b` for the numbers of C
abbrev pub int_lt : ℤ → ℤ → Bool
int_lt (pos a) (pos b) = ltb a b
int_lt (pos a) (negsuc b) = false
int_lt (negsuc a) (pos b) = true
int_lt (negsuc a) (negsuc b) = ltb b a

unfoldable pub comparator_integer : ℤ → ℤ → ℤ
comparator_integer a b = if int_eq a b then pos 0 else if int_lt a b then negsuc 0 else pos 1

-- `strcmp`, by its sign
unfoldable pub comparator_string : Bytes → Bytes → ℤ
comparator_string [] [] = pos 0
comparator_string [] (b ∷ bs) = negsuc 0
comparator_string (a ∷ as') [] = pos 1
comparator_string (a ∷ as') (b ∷ bs) =
    let rest = comparator_string as' bs in
    if a == b then rest else if ltb a b then negsuc 0 else pos 1

-- coord_t
pub record Coord : Type 0 where
  pub x : ℤ
  pub y : ℤ

unfoldable pub coord_comparator : Coord → Coord → ℤ
coord_comparator a b = if int_eq a.x b.x && int_eq a.y b.y then pos 0 else negsuc 0

unfoldable pub coord_append_to_buffer : Coord → Bytes → Option Bytes
unfolding append decimal_int
coord_append_to_buffer value buffer =
    append (codes "[" ++ (decimal_int value.x ++ (codes "," ++ (decimal_int value.y ++ codes "]"))))
      buffer

-- PCUT_VAR_ARG_COUNT by the number of the arguments. Of none there is an empty one, which is no
-- value, and of twelve or more the twelfth itself is taken for the count.
unfoldable pub var_arg_count : ℕ → Option ℕ
var_arg_count n = if ltb 0 n && ltb n 12 then some n else none

-- The matchers. One that the program defines tests the value and describes itself.
pub data Matcher (U V : Type 0) : Type 0 where
  is_equal : (U → V × U) → Matcher U V
  is_not : Matcher U V → Matcher U V
  is_any_of : List (U → V × U) → Matcher U V
  custom : (V → Bool) → Bytes → Matcher U V

-- The local variables of PCUT_ASSERT_THAT_TYPED behind the value, and the rest of the program's state.
pub record State (U : Type 0) : Type 0 where
  pub result : Bool
  pub text : Bytes
  pub user : U

-- The comparator and the formatter, and the value.
module _ {U V : Type 0} (comparator : V → V → Option ℤ) (formatter : V → Bytes → Option Bytes)
    (actual : V) where
  abbrev pub append_description : Bytes → State U → Option (State U)
  append_description str s = append str s.text >>= λ t. some (record s { text = t })

  abbrev pub append_value : V → State U → Option (State U)
  append_value v s = formatter v s.text >>= λ t. some (record s { text = t })

  -- `comparator(actual, temp) == 0`
  abbrev pub compare_with : V → State U → Option (State U)
  compare_with v s = comparator actual v >>= λ c. some (record s { result = int_eq c (pos 0) })

  -- PCUT_IS_ANY_OF_NEXT_VALUE behind the test of the index.
  unfoldable pub next_value : ℕ → (U → V × U) → State U → Option (State U)
  unfolding append
  next_value index value s =
      (if ltb 0 index then append_description (codes ", ") s else some s) >>= λ s₁.
      let r = value s₁.user in
      append_value r.0 (record s₁ { user = r.1 }) >>= λ s₂.
      if s₂.result then some s₂ else compare_with r.0 s₂

  -- PCUT_IS_ANY_OF_COUNTED from the given index on, with the rounds that are left.
  unfoldable pub any_of_counted : ℕ → ℕ → List (U → V × U) → State U → Option (State U)
  unfolding next_value
  any_of_counted zero index values s =
      append_description (codes " !!! INTERNAL ERROR (PCUT_IS_ANY_OF too small) !!! ") s
  any_of_counted (suc rounds) index [] s = some s
  any_of_counted (suc rounds) index (v ∷ values) s =
      next_value index v s >>= any_of_counted rounds (index + 1) values

  unfoldable pub run : Matcher U V → State U → Option (State U)
  unfolding append var_arg_count any_of_counted
  run (is_equal value) s =
      let r = value s.user in
      compare_with r.0 (record s { user = r.1 }) >>= λ s₁.
      append_description (codes "equal to ") s₁ >>= append_value r.0
  run (is_not m) s = append_description (codes "not (") s >>= run m >>= λ s₁.
      append_description (codes ")") (record s₁ { result = not s₁.result })
  run (is_any_of values) s =
      append_description (codes "any of { ") (record s { result = false }) >>= λ s₁.
      var_arg_count (length values) >>= λ count.
      any_of_counted 7 0 values s₁ >>= append_description (codes " }")
  run (custom test description) s =
      append_description description (record s { result = test actual })

  -- PCUT_ASSERT_THAT_TYPED from the declaration of the buffer on: what it prints.
  unfoldable pub described : Bytes → Bytes → Matcher U V → U → Option (Bytes × U)
  unfolding run append
  described actual_text matcher_name m u =
      append_description (codes "Expected " ++ (actual_text ++ codes " is "))
        (record { result = true; text = []; user = u })
      >>= run m
      >>= append_description (codes " but got ")
      >>= append_value actual
      >>= append_description (codes " [" ++ (matcher_name ++ codes "]."))
      >>= λ s. some (
        (if not s.result then codes "ERROR: " else codes " OKAY: ") ++ (s.text ++ codes "\n"),
        s.user,
      )

-- The whole macro: the value is computed first, once.
unfoldable pub assert_that_typed :
    {U V : Type 0}
    → (V → V → ℤ)
    → (V → Bytes → Option Bytes)
    → Bytes
    → (U → V × U)
    → Bytes
    → Matcher U V
    → U
    → Option (Bytes × U)
unfolding described
assert_that_typed comparator formatter actual_text actual matcher_name m u =
    let r = actual u in
    described (λ a b. some (comparator a b)) formatter r.0 actual_text matcher_name m r.1

-- PCUT_ASSERT_THAT_INT, PCUT_ASSERT_THAT_STRING and PCUT_ASSERT_THAT_COORD
unfoldable pub assert_that_int :
    {U : Type 0} → Bytes → (U → ℤ × U) → Bytes → Matcher U ℤ → U → Option (Bytes × U)
unfolding assert_that_typed comparator_integer append_integer
assert_that_int = assert_that_typed comparator_integer append_integer

unfoldable pub assert_that_string :
    {U : Type 0} → Bytes → (U → Bytes × U) → Bytes → Matcher U Bytes → U → Option (Bytes × U)
unfolding assert_that_typed comparator_string append_string
assert_that_string = assert_that_typed comparator_string append_string

unfoldable pub assert_that_coord :
    {U : Type 0} → Bytes → (U → Coord × U) → Bytes → Matcher U Coord → U → Option (Bytes × U)
unfolding assert_that_typed coord_comparator coord_append_to_buffer
assert_that_coord = assert_that_typed coord_comparator coord_append_to_buffer
