-- ===== src/Args.antt =====
-- The string functions of src/os/stdc.c over C strings without their NUL, `pcut_is_arg_with_number`
-- of src/main.c, and the listing of src/print.c.
pub mod Numbers
pub mod Listing
use pcut.Common.{
  ℕ, zero, suc, ◌+◌, ◌-◌, ◌*◌, Bool, true, false, ◌&&◌, ◌||◌, Option, none, some, [], ◌∷◌, ◌++◌, ℤ,
  pos, negsuc, Bytes, codes, leb, ◌==◌, if◌then◌else◌, length, take, drop, Run, done, out_of_fuel,
  ◌>>=◌, decimal_int,
}
use pcut.Item.{Ptr, Item, Store, testsuite, test, setup, teardown, skip, nested_list}
use pcut.Items.{get_real, get_real_next}

-- `strcmp(a, b) == 0`
unfoldable pub str_equals : Bytes → Bytes → Bool
str_equals [] [] = true
str_equals (a ∷ as') (b ∷ bs) = a == b && str_equals as' bs
str_equals _ _ = false

-- `strncmp(a, b, len) == 0`
unfoldable pub str_start_equals : Bytes → Bytes → ℕ → Bool
str_start_equals xs ys zero = true
str_start_equals [] [] (suc n) = true
str_start_equals (a ∷ xs) (b ∷ ys) (suc n) = a == b && str_start_equals xs ys n
str_start_equals _ _ (suc n) = false

-- `atoi` of the C library, for values in the range of int: blanks, a sign, and the digits.
is_space : ℕ → Bool
is_space c = c == b' ' || (leb b'\t' c && leb c b'\r')

is_digit : ℕ → Bool
is_digit c = leb b'0' c && leb c b'9'

digits_value : Bytes → ℕ → ℕ
unfolding is_digit
digits_value [] acc = acc
digits_value (c ∷ cs) acc =
    let rest = digits_value cs (acc * 10 + (c - b'0')) in if is_digit c then rest else acc

negated : ℕ → ℤ
negated zero = pos 0
negated (suc n) = negsuc n

signed : Bytes → ℤ
unfolding digits_value negated
signed [] = pos 0
signed (c ∷ cs) =
    if c == b'-'
    then negated (digits_value cs 0)
    else if c == b'+'
    then pos (digits_value cs 0)
    else pos (digits_value (c ∷ cs) 0)

unfoldable pub str_to_int : Bytes → ℤ
unfolding is_space signed
str_to_int [] = pos 0
str_to_int (c ∷ cs) = let rest = str_to_int cs in if is_space c then rest else signed (c ∷ cs)

-- `pcut_str_error`: the string in the buffer; `strerror` of the C library is a parameter, NULL as `none`.
unfoldable pub str_error : (ℤ → Option Bytes) → ℤ → ℕ → Bytes
str_error strerror error size =
    take (size - 1) (elim (strerror error) [ none ↦ codes "(strerror failure)" | some str ↦ str ])

-- `pcut_is_arg_with_number`: the value that is stored, if there is one.
unfoldable pub is_arg_with_number : Bytes → Bytes → Option ℤ
unfolding str_start_equals str_to_int
is_arg_with_number arg opt =
    let opt_len = length opt in
    if str_start_equals arg opt opt_len then some (str_to_int (drop opt_len arg)) else none

-- One line of `pcut_print_tests`; `none` is the failed `assert` on an item of another kind.
unfoldable pub test_line : Item → Option Bytes
unfolding decimal_int
test_line it = elim it.kind [
  | testsuite ↦
      some (codes "  Suite `" ++ (it.name ++ (codes "' [" ++ (decimal_int it.id ++ codes "]\n"))))
  | test ↦
      some (codes "    Test `" ++ (it.name ++ (codes "' [" ++ (decimal_int it.id ++ codes "]\n"))))
  | setup ↦ some []
  | teardown ↦ some []
  | skip ↦ none
  | nested_list ↦ none
]

unfoldable pub print_tests_loop : ℕ → ℕ → Store → Ptr → Bytes → Run (Option Bytes)
unfolding get_real_next test_line
print_tests_loop w n h none out = done (some out)
print_tests_loop w zero h (some a) out = out_of_fuel
print_tests_loop w (suc n) h (some a) out = elim (test_line (h a)) [
  | none ↦ done none
  | some line ↦ get_real_next w h (some a) >>= λ it. print_tests_loop w n h it (out ++ line)
]

-- What `pcut_print_tests` prints.
unfoldable pub print_tests : ℕ → Store → Ptr → Run (Option Bytes)
unfolding get_real print_tests_loop
print_tests w h first = get_real w h first >>= λ it. print_tests_loop w w h it []

-- One line of `pcut_print_items`.
unfoldable pub item_line : Item → Bytes
item_line it = elim it.kind [
  | test ↦ codes "TEST " ++ (it.name ++ codes "\n")
  | testsuite ↦ codes "SUITE " ++ (it.name ++ codes "\n")
  | skip ↦ []
  | nested_list ↦ codes "NESTED ...\n"
  | setup ↦ codes "UNKNOWN (2)\n"
  | teardown ↦ codes "UNKNOWN (3)\n"
]

unfoldable pub print_items_loop : ℕ → Store → Ptr → Bytes → Run Bytes
unfolding item_line
print_items_loop n h none out = done (out ++ codes "----\n")
print_items_loop zero h (some a) out = out_of_fuel
print_items_loop (suc n) h (some a) out = print_items_loop n h (h a).next (out ++ item_line (h a))

unfoldable pub print_items : ℕ → Store → Ptr → Run Bytes
unfolding print_items_loop
print_items n h first = print_items_loop n h first (codes "====>\n")
