-- ===== src/Asserts.antt =====
-- include/pcut/asserts.h: when the assertion macros fail, and the message they format.
--
-- A macro is a function of the values and the source texts of its arguments; `none` is an assertion that
-- holds, and `some` holds the formatted message. A string pointer that may be NULL is an option.
-- The texts of error numbers, pointers and doubles, and the arithmetic of doubles, are parameters. The source
-- texts that a macro puts into the format hold no `%`.
pub mod Holding
use pcut.Common.{
  ℕ, Bool, true, false, not, ◌&&◌, ◌||◌, Option, none, some, ◌++◌, ℤ, int_eq, Bytes, codes,
  if◌then◌else◌, decimal_int, ◌==◌,
}
use pcut.Args.{str_equals, str_error}

abbrev pub is_null : Option Bytes → Bool
is_null none = true
is_null (some s) = false

-- PCUT_ASSERT_TRUE
unfoldable pub assert_true : Bool → Bytes → Option Bytes
assert_true actual text =
    if not actual then some (codes "Expected true but got <" ++ (text ++ codes ">")) else none

-- PCUT_ASSERT_FALSE
unfoldable pub assert_false : Bool → Bytes → Option Bytes
assert_false actual text =
    if actual then some (codes "Expected false but got <" ++ (text ++ codes ">")) else none

-- PCUT_ASSERT_EQUALS; `equal` is `(expected) == (actual)`.
unfoldable pub assert_equals : Bool → Bytes → Bytes → Option Bytes
assert_equals equal e a =
    if not equal
    then some (codes "Expected <" ++ (e ++ (codes "> but got <" ++ (a ++ codes ">"))))
    else none

-- PCUT_ASSERT_NULL; a pointer is a number, 0 for NULL.
unfoldable pub assert_null : (ℕ → Bytes) → ℕ → Bytes → Option Bytes
assert_null pointer_text pointer name =
    if not (pointer == 0)
    then some (
        codes "Expected <"
        ++ (name ++ (codes "> to be NULL, instead it points to " ++ pointer_text pointer)))
    else none

-- PCUT_ASSERT_NOT_NULL_WITH_NAME
unfoldable pub assert_not_null : Option Bytes → Bytes → Option Bytes
assert_not_null pointer name =
    if is_null pointer
    then some (codes "Pointer <" ++ (name ++ codes "> ought not to be NULL"))
    else none

-- "Expected <…> but got <…> (… != …)"
abbrev difference : (expected actual expected_text actual_text : Bytes) → Bytes
difference expected actual e a =
    codes "Expected <"
    ++ (expected
        ++ (codes "> but got <"
            ++ (actual ++ (codes "> (" ++ (e ++ (codes " != " ++ (a ++ codes ")")))))))

-- PCUT_ASSERT_INT_EQUALS
unfoldable pub assert_int_equals : ℤ → ℤ → Bytes → Bytes → Option Bytes
unfolding decimal_int
assert_int_equals expected actual e a =
    if not (int_eq expected actual)
    then some (difference (decimal_int expected) (decimal_int actual) e a)
    else none

abbrev compare_strings : Option Bytes → Option Bytes → Bytes → Bytes → Option Bytes
unfolding str_equals
compare_strings (some expected) (some actual) e a =
    if not (str_equals expected actual) then some (difference expected actual e a) else none
compare_strings _ _ e a = none

-- PCUT_ASSERT_STR_EQUALS; a failed assertion leaves the test, so the first failure counts.
unfoldable pub assert_str_equals : Option Bytes → Option Bytes → Bytes → Bytes → Option Bytes
unfolding assert_not_null compare_strings
assert_str_equals expected actual e a = elim (assert_not_null expected e) [
  | some m ↦ some m
  | none ↦ elim (assert_not_null actual a) [
    | some m ↦ some m
    | none ↦ compare_strings expected actual e a
  ]
]

abbrev or_null : Option Bytes → Bytes
or_null none = codes "NULL"
or_null (some s) = s

-- `pcut_str_equals` behind the tests for NULL
abbrev both_equal : Option Bytes → Option Bytes → Bool
unfolding str_equals
both_equal (some s) (some t) = str_equals s t
both_equal _ _ = false

-- PCUT_ASSERT_STR_EQUALS_OR_NULL
unfoldable pub assert_str_equals_or_null :
    Option Bytes → Option Bytes → Bytes → Bytes → Option Bytes
unfolding both_equal
assert_str_equals_or_null expected actual e a =
    let both_null = is_null expected && is_null actual in
    let some_null = is_null expected || is_null actual in
    if not both_null && (some_null || not (both_equal expected actual))
    then some (difference (or_null expected) (or_null actual) e a)
    else none

-- PCUT_ASSERT_ERRNO_VAL_WITH_NAME
unfoldable pub assert_errno_val : (ℤ → Option Bytes) → ℤ → Bytes → ℤ → Option Bytes
unfolding decimal_int str_error
assert_errno_val strerror expected quoted actual =
    if not (int_eq expected actual)
    then some (
        codes "Expected error "
        ++ (decimal_int expected
            ++ (codes " ("
                ++ (quoted
                    ++ (codes ", "
                        ++ (str_error strerror expected 100
                            ++ (codes ") but got error "
                                ++ (decimal_int actual
                                    ++ (codes " ("
                                        ++ (str_error strerror actual 100 ++ codes ")"))))))))))
    else none

-- PCUT_ASSERT_DOUBLE_EQUALS
module _ {D : Type 0} (minus : D → D → D) (negated : D → D) (less : D → D → Bool)
    (text : D → Bytes) where
  unfoldable pub assert_double_equals : D → D → D → Bytes → Bytes → Option Bytes
  assert_double_equals expected actual epsilon e a =
      let diff = minus expected actual in
      if less diff (negated epsilon) || less epsilon diff
      then some (
          codes "Expected <"
          ++ (text expected
              ++ (codes "+-"
                  ++ (text epsilon
                      ++ (codes "> but got <"
                          ++ (text actual
                              ++ (codes "> (" ++ (e ++ (codes " != " ++ (a ++ codes ")"))))))))))
      else none
