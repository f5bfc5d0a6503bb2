-- ===== src/Preproc.antt =====
-- src/preproc.c: the preprocessor that numbers the items of a test program.
--
-- The input and the output are lists of bytes. `isalpha` and `isdigit` of the C library are parameters.
pub mod Pieces
use pcut.Common.{
  ℕ, zero, suc, ◌+◌, ◌-◌, Bool, true, false, ◌&&◌, ◌||◌, not, Option, none, some, List, [], ◌∷◌,
  ◌++◌, ℤ, pos, negsuc, Bytes, codes, leb, ◌==◌, if◌then◌else◌, length, decimal_int,
}
use pcut.Args.{str_equals}

-- MAX_IDENTIFIER_LENGTH
abbrev pub max_identifier_length : ℕ
max_identifier_length = 256

-- The variables of the program: `counter`, `last_char_was_identifier`, `last_identifier`, and what was printed.
pub record Preproc : Type 0 where
  pub counter : ℕ
  pub last_char_was_identifier : Bool
  pub last_identifier : Bytes
  pub output : Bytes

-- `print_numbered_identifier`, `print_numbered_identifier2` and `print_numbered_identifier3`
unfoldable pub print_numbered_identifier : Bytes → ℤ → Bytes
unfolding decimal_int
print_numbered_identifier prefix value = prefix ++ decimal_int value

-- `counter - 1`
abbrev pub previous_number : ℕ → ℤ
previous_number zero = negsuc 0
previous_number (suc n) = pos n

-- What `identifier_print_or_expand` prints, and the new counter.
unfoldable pub expand : Bytes → ℕ → Bytes × ℕ
unfolding str_equals print_numbered_identifier
expand name counter =
    if str_equals name (codes "PCUT_ITEM_NAME")
    then (print_numbered_identifier (codes "pcut_item_") (pos counter), counter)
    else if str_equals name (codes "PCUT_ITEM_NAME_PREV")
    then (print_numbered_identifier (codes "pcut_item_") (previous_number counter), counter)
    else if str_equals name (codes "PCUT_ITEM_COUNTER_INCREMENT")
    then ([], counter + 1)
    else if str_equals name (codes "PCUT_ITEM2_NAME")
    then (print_numbered_identifier (codes "pcut_item2_") (pos counter), counter)
    else if str_equals name (codes "PCUT_ITEM3_NAME")
    then (print_numbered_identifier (codes "pcut_item3_") (pos counter), counter)
    else (name, counter)

unfoldable pub identifier_print_or_expand : Preproc → Preproc
unfolding expand
identifier_print_or_expand s =
    let r = expand s.last_identifier s.counter in
    record s { output = s.output ++ r.0; counter = r.1 }

-- `identifier_add_char`; `none` is `exit(1)`.
unfoldable pub identifier_add_char : Bytes → ℕ → Option Bytes
identifier_add_char name c =
    if leb max_identifier_length (length name + 1) then none else some (name ++ c ∷ [])

-- The end of `main`, behind the loop.
unfoldable pub finish : Option Preproc → Option Bytes
unfolding identifier_print_or_expand
finish none = none
finish (some s) =
    let s' = if s.last_char_was_identifier then identifier_print_or_expand s else s in
    some (s'.output ++ b'\n' ∷ [])

module _ (isalpha isdigit : ℕ → Bool) where
  unfoldable pub is_identifier_char : ℕ → Bool → Bool
  is_identifier_char c inside = (isalpha c || c == b'_') || (inside && isdigit c)

  -- One round of the loop.
  unfoldable pub read_char : ℕ → Preproc → Option Preproc
  unfolding is_identifier_char identifier_add_char identifier_print_or_expand
  read_char c s =
      let inside = s.last_char_was_identifier in
      if is_identifier_char c inside
      then elim (identifier_add_char (if inside then s.last_identifier else []) c) [
        | none ↦ none
        | some name ↦ some (record s { last_identifier = name; last_char_was_identifier = true })
      ]
      else let s' = if inside then identifier_print_or_expand s else s in
        some (record s' { output = s'.output ++ c ∷ []; last_char_was_identifier = false })

  unfoldable pub read_all_chars : Bytes → Preproc → Option Preproc
  unfolding read_char
  read_all_chars [] s = some s
  read_all_chars (c ∷ input) s = elim (read_char c s) [
    | none ↦ none
    | some s' ↦ read_all_chars input s'
  ]

  -- `main`: what it prints; `none` is the exit with an identifier that is too long.
  unfoldable pub preprocess : Bytes → Option Bytes
  unfolding read_all_chars finish
  preprocess input = finish (
      read_all_chars input (record {
        counter = 0;
        last_char_was_identifier = false;
        last_identifier = [];
        output = [];
      }))
