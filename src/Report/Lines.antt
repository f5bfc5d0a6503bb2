-- ===== src/Report/Lines.antt =====
-- `print_by_lines` of src/report/tap.c and of src/report/xml.c.
--
-- The code puts a NUL over each newline of the caller's buffer; the buffers are not read afterwards.
use pcut.Common.{
  ℕ, zero, suc, ◌<◌, ◌≡◌, refl, ap, Bool, true, false, Option, none, some, [], ◌∷◌, ◌++◌, Bytes,
  codes, ◌==◌, if◌then◌else◌, length, arith, Bool-cases, Option-cases, inl, inr,
}

-- `pcut_str_find_char`: the bytes before the first `c` and those behind it.
unfoldable pub str_find_char : Bytes → ℕ → Option (Bytes × Bytes)
str_find_char [] c = none
str_find_char (b ∷ bs) c =
    if b == c
    then some ([], bs)
    else elim (str_find_char bs c) [ none ↦ none | some (l, r) ↦ some (b ∷ l, r) ]

-- The loop; `prefix` is empty in xml.c. The fuel is used up by the newlines.
unfoldable pub print_lines : ℕ → Bytes → Bytes → Bytes
unfolding str_find_char
print_lines zero prefix message = []
print_lines (suc f) prefix message = elim (str_find_char message b'\n') [
  | none ↦ if length message == 0 then [] else prefix ++ (message ++ b'\n' ∷ [])
  | some (l, rest) ↦ prefix ++ (l ++ b'\n' ∷ print_lines f prefix rest)
]

-- `print_by_lines` of tap.c
unfoldable pub tap_print_by_lines : Option Bytes → Bytes → Bytes
unfolding print_lines
tap_print_by_lines none prefix = []
tap_print_by_lines (some message) prefix =
    if length message == 0 then [] else print_lines (suc (length message)) prefix message

-- `print_by_lines` of xml.c
unfoldable pub xml_print_by_lines : Option Bytes → Bytes → Bytes
unfolding print_lines
xml_print_by_lines none element_name = []
xml_print_by_lines (some message) element_name =
    if length message == 0
    then []
    else codes "\t\t\t<"
      ++ (element_name
          ++ (codes "><![CDATA["
              ++ (print_lines (suc (length message)) [] message
                  ++ (codes "]]></" ++ (element_name ++ codes ">\n")))))

-- What is printed, byte by byte: the prefix stands at the start of each line, and the last line is
-- ended if the message does not end it. The flag says whether a line starts here.
unfoldable pub tagged : Bytes → Bool → Bytes → Bytes
tagged prefix true [] = []
tagged prefix false [] = b'\n' ∷ []
tagged prefix start (b ∷ bs) = (if start then prefix else []) ++ (b ∷ tagged prefix (b == b'\n') bs)

tagged_no_newline :
    (prefix m : Bytes) → str_find_char m b'\n' ≡ none → tagged prefix false m ≡ m ++ b'\n' ∷ []
unfolding str_find_char tagged
tagged_no_newline prefix [] e = refl
tagged_no_newline prefix (b ∷ m) e = elim (Bool-cases (b == b'\n')) [
  | inl h ↦ ground arith
  | inr h ↦ ground (arith, tagged_no_newline prefix m)
]

-- The line before a newline, and the message behind it.
tagged_newline :
    (prefix m l r : Bytes)
    → str_find_char m b'\n' ≡ some (l, r)
    → (tagged prefix false m ≡ l ++ b'\n' ∷ tagged prefix true r) × (length r < length m)
unfolding str_find_char tagged
tagged_newline prefix [] l r e = cc
tagged_newline prefix (b ∷ m) l r e = elim (Bool-cases (b == b'\n')) [
  | inl h ↦ ground arith
  | inr h ↦ elim (Option-cases (str_find_char m b'\n')) [
    | inl n ↦ ground arith
    | inr ((k, q), n) ↦ ground (arith, tagged_newline prefix m k q n)
  ]
]

tagged_start :
    (prefix : Bytes) (b : ℕ) (m : Bytes)
    → tagged prefix true (b ∷ m) ≡ prefix ++ tagged prefix false (b ∷ m)
unfolding tagged
tagged_start prefix b m = refl

tagged_nil : (prefix : Bytes) → tagged prefix true [] ≡ []
unfolding tagged
tagged_nil prefix = refl

-- With fuel above the length, the loop prints the tagged message.
print_lines-tagged :
    (f : ℕ) (prefix message : Bytes)
    → length message < f
    → print_lines f prefix message ≡ tagged prefix true message
unfolding print_lines
print_lines-tagged zero prefix m l = absurd (omega arith)
print_lines-tagged (suc f) prefix [] l = rw tagged_nil refl
print_lines-tagged (suc f) prefix (b ∷ m) l = elim (Option-cases (str_find_char (b ∷ m) b'\n')) [
  | inl n ↦ ground (arith, tagged_start prefix b m, tagged_no_newline prefix (b ∷ m) n)
  | inr ((k, q), n) ↦
      let (line, shorter) = tagged_newline prefix (b ∷ m) k q n in
      ground (arith, tagged_start prefix b m, line, print_lines-tagged f prefix q (omega arith))
]

-- `print_by_lines` of tap.c prints each line of the message behind the prefix, and nothing else.
pub tap_print_by_lines-tagged :
    (prefix message : Bytes) → tap_print_by_lines (some message) prefix ≡ tagged prefix true message
unfolding tap_print_by_lines
tap_print_by_lines-tagged prefix [] = rw tagged_nil refl
tap_print_by_lines-tagged prefix (b ∷ m) =
    ground (arith, print_lines-tagged (suc (length (b ∷ m))) prefix (b ∷ m) (omega arith))

-- An element of the XML report; there is none for an empty message.
abbrev pub element : Bytes → Bytes → Bytes
element name message =
    if length message == 0
    then []
    else codes "\t\t\t<"
      ++ (name
          ++ (codes "><![CDATA["
              ++ (tagged [] true message ++ (codes "]]></" ++ (name ++ codes ">\n")))))

-- `print_by_lines` of xml.c prints the message as it is, with a newline at its end.
pub xml_print_by_lines-element :
    (name message : Bytes) → xml_print_by_lines (some message) name ≡ element name message
unfolding xml_print_by_lines
xml_print_by_lines-element name m =
    ap
      (λ t.
        if length m == 0
        then []
        else codes "\t\t\t<"
          ++ (name ++ (codes "><![CDATA[" ++ (t ++ (codes "]]></" ++ (name ++ codes ">\n"))))))
      (print_lines-tagged (suc (length m)) [] m (omega arith))
