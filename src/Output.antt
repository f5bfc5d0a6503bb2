-- ===== src/Output.antt =====
-- The encoding of a test's output in src/report/report.c: `pcut_print_fail_message` in the process of
-- the test, and `parse_command_output` in the process that reports it.
--
-- A C string is the list of its bytes before the NUL. The captured output is a list whose length is
-- `full_output_size`, and advancing `full_output` drops bytes from it, so a read behind its last byte
-- is a read of the empty list.
pub mod Parse
pub mod Newline
pub mod RoundTrip
pub mod Limits
pub mod Total
use pcut.Common.{
  ℕ, zero, suc, ◌+◌, ◌-◌, Bool, true, false, Option, none, some, List, [], ◌∷◌, ◌++◌, Bytes, ltb,
  ◌==◌, if◌then◌else◌, Run, done, out_of_fuel, length, take, drop, replicate,
}

-- What `pcut_print_fail_message` prints.
unfoldable pub print_fail_message : Option Bytes → Bytes
print_fail_message none = []
print_fail_message (some msg) = if length msg == 0 then [] else 0 ∷ 0 ∷ 0 ∷ (msg ++ b'\n' ∷ 0 ∷ [])

-- BUFFER_SIZE
abbrev pub buffer_size : ℕ
buffer_size = 4096

-- The two output buffers: what has been copied into each, and the room that is left behind it.
pub record Buffers : Type 0 where
  pub stdio : Bytes
  pub stdio_left : ℕ
  pub error : Bytes
  pub error_left : ℕ

-- The bytes of a buffer that was cleared before the copying.
abbrev pub contents : Bytes → ℕ → Bytes
contents written left = written ++ replicate left 0

-- How the parser ends: by a `return`, or by a read outside the captured output.
pub data Parsed : Type 0 where
  parsed : Buffers → Parsed
  bad_read : Parsed

-- The inner loop over the zero bytes before a text: the text with the number of zeros before it,
-- the `return` at the end of the output, or a read outside of it.
pub data Scan : Type 0 where
  text_at : ℕ → Bytes → Scan
  ended : Scan
  past_end : Scan

unfoldable pub skip_zeros : Bytes → ℕ → Scan
skip_zeros [] n = past_end
skip_zeros (b ∷ []) n = if b == 0 then ended else text_at n (b ∷ [])
skip_zeros (b ∷ c ∷ r) n =
    let rest = skip_zeros (c ∷ r) (n + 1) in if b == 0 then rest else text_at n (b ∷ c ∷ r)

-- `pcut_str_size`, on memory that may lack a NUL.
unfoldable pub str_size : Bytes → Option ℕ
str_size [] = none
str_size (b ∷ r) =
    if b == 0 then some 0 else elim (str_size r) [ none ↦ none | some n ↦ some (n + 1) ]

-- The copy of one text; `none` is the `return` for a text that does not fit.
unfoldable pub store_text : ℕ → Bytes → ℕ → Buffers → Option Buffers
store_text zeros text n s =
    if ltb zeros 2
    then (if ltb s.stdio_left n
        then none
        else some (record s { stdio = s.stdio ++ take n text; stdio_left = s.stdio_left - n }))
    else (if ltb s.error_left n
        then none
        else some (record s { error = s.error ++ take n text; error_left = s.error_left - n }))

-- The `while (1)` loop.
unfoldable pub parse_loop : ℕ → Bytes → Buffers → Run Parsed
unfolding skip_zeros str_size store_text
parse_loop zero out s = out_of_fuel
parse_loop (suc f) out s = elim (skip_zeros out 0) [
  | past_end ↦ done bad_read
  | ended ↦ done (parsed s)
  | text_at zeros text ↦ elim (str_size text) [
    | none ↦ done bad_read
    | some n ↦ elim (store_text zeros text n s) [
      | none ↦ done (parsed s)
      | some s' ↦ parse_loop f (drop (n + 1) text) s'
    ]
  ]
]

-- The byte at `full_output_size - 1`; there is none before an empty output.
unfoldable pub last_byte : Bytes → Option ℕ
last_byte [] = none
last_byte (b ∷ []) = some b
last_byte (b ∷ c ∷ r) = last_byte (c ∷ r)

abbrev pub cleared : ℕ → ℕ → Buffers
cleared n m = record { stdio = []; stdio_left = n; error = []; error_left = m }

-- `parse_command_output`
unfoldable pub parse_command_output : Bytes → ℕ → ℕ → Run Parsed
unfolding parse_loop last_byte
parse_command_output out stdio_size error_size =
    let s = cleared stdio_size error_size in
    elim (last_byte out) [
      | none ↦ done bad_read
      | some b ↦ if b == 0 then parse_loop (suc (length out)) out s else done (parsed s)
    ]
