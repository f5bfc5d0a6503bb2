-- ===== src/Playground/ByType.antt =====
-- contrib/playground/assert_that_generic.c: the comparison and the text of a value, chosen by its type.
use pcut.Common.{
  ℕ, ◌&&◌, Option, none, some, ◌++◌, ℤ, pos, negsuc, int_eq, Bytes, codes, if◌then◌else◌,
  decimal_int,
}
use pcut.Assert.{snprintf}
use pcut.Playground.Typed.{
  assertion_text_buffer_length, append, comparator_integer, comparator_string, Coord, Matcher,
  described,
}

-- type_info_t; `append` is passed the size of the whole buffer.
pub record TypeInfo (V : Type 0) : Type 0 where
  pub compare : Option (V → V → ℤ)
  pub append : Option (V → Bytes → ℕ → Option Bytes)

unfoldable pub compare_coord : Coord → Coord → ℤ
compare_coord a b = if int_eq a.x b.x && int_eq a.y b.y then pos 0 else negsuc 0

unfoldable pub append_coord : Coord → Bytes → ℕ → Option Bytes
unfolding append decimal_int
append_coord value buffer size =
    append (codes "[" ++ (decimal_int value.x ++ (codes "," ++ (decimal_int value.y ++ codes "]"))))
      buffer

unfoldable pub compare_int : ℤ → ℤ → ℤ
unfolding comparator_integer
compare_int a b = comparator_integer a b

-- `snprintf(buffer + strlen(buffer), size, …)`: what it prints stands behind the text of the buffer.
unfoldable pub append_int : ℤ → Bytes → ℕ → Option Bytes
unfolding append decimal_int
append_int a buffer size = append (snprintf size (decimal_int a)) buffer

unfoldable pub compare_str : Bytes → Bytes → ℤ
unfolding comparator_string
compare_str a b = comparator_string a b

unfoldable pub append_str : Bytes → Bytes → ℕ → Option Bytes
unfolding append
append_str a buffer size = append (snprintf size a) buffer

abbrev pub type_info_coord : TypeInfo Coord
type_info_coord = record { compare = some compare_coord; append = some append_coord }

abbrev pub type_info_int : TypeInfo ℤ
type_info_int = record { compare = some compare_int; append = some append_int }

abbrev pub type_info_str : TypeInfo Bytes
type_info_str = record { compare = some compare_str; append = some append_str }

abbrev pub type_info_default : {V : Type 0} → TypeInfo V
type_info_default = record { compare = none; append = none }

-- The types that GET_TYPE_INFO tells apart; a value of another type is a number here.
pub data CType : Type 0 where
  int_type const_char_pointer char_pointer coord_type other_type : CType

abbrev pub ValueOf : CType → Type 0
ValueOf int_type = ℤ
ValueOf const_char_pointer = Bytes
ValueOf char_pointer = Bytes
ValueOf coord_type = Coord
ValueOf other_type = ℕ

unfoldable pub get_type_info : (t : CType) → TypeInfo (ValueOf t)
get_type_info int_type = type_info_int
get_type_info const_char_pointer = type_info_str
get_type_info char_pointer = type_info_str
get_type_info coord_type = type_info_coord
get_type_info other_type = type_info_default

-- The calls through the pointers; a call of a null pointer is `none`.
abbrev pub call_compare : {V : Type 0} → TypeInfo V → V → V → Option ℤ
call_compare info a b = elim (info.compare) [ none ↦ none | some f ↦ some (f a b) ]

abbrev pub call_append : {V : Type 0} → TypeInfo V → V → Bytes → Option Bytes
call_append info v buffer = elim (info.append) [
  | none ↦ none
  | some f ↦ f v buffer assertion_text_buffer_length
]

-- PCUT_ASSERT_THAT_T, and PCUT_ASSERT_THAT, which finds the information on the type itself.
unfoldable pub assert_that_t :
    {U V : Type 0} → TypeInfo V → Bytes → (U → V × U) → Bytes → Matcher U V → U → Option (Bytes × U)
unfolding described
assert_that_t info actual_text actual matcher_name m u =
    let r = actual u in
    described (call_compare info) (call_append info) r.0 actual_text matcher_name m r.1

unfoldable pub assert_that :
    {U : Type 0}
    → (t : CType) → Bytes
    → (U → ValueOf t × U)
    → Bytes
    → Matcher U (ValueOf t)
    → U
    → Option (Bytes × U)
unfolding get_type_info assert_that_t
assert_that t actual_text actual matcher_name m u =
    assert_that_t (get_type_info t) actual_text actual matcher_name m u
