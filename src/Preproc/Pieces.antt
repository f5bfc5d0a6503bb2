-- ===== src/Preproc/Pieces.antt =====
-- The preprocessor on the identifiers of its input.
use pcut.Common.{
  ℕ, zero, suc, ◌+◌, ◌<◌, codes, decimal, decimal_int, Bool-cases, inl, inr, if◌then◌else◌, ◌≡◌,
  refl, sym, ap, ◌∙◌, Bool, true, false, ◌||◌, some, List, [], ◌∷◌, ◌++◌, Bytes, arith, length,
  length-append, append_assoc, append-nil, ◌==◌,
}
use pcut.Preproc.{
  Preproc, expand, print_numbered_identifier, previous_number, identifier_print_or_expand,
  identifier_add_char, is_identifier_char, read_char, read_all_chars, finish, preprocess,
}
use pcut.Args.{str_equals}

-- An identifier, or none, and the character behind it.
abbrev pub Piece : Type 0
Piece = Bytes × ℕ

abbrev pub text : List Piece → Bytes → Bytes
text [] last = last
text ((w, c) ∷ ps) last = w ++ c ∷ text ps last

-- The number one less than a counter, as it is printed.
abbrev pub one_less : ℕ → Bytes
one_less zero = codes "-1"
one_less (suc n) = decimal n

-- The identifiers that stand for something else when `n` increments stand before: what is printed for each,
-- and how far it moves the counter.
abbrev pub replacements : ℕ → List (Bytes × Bytes × ℕ)
replacements n =
    (codes "PCUT_ITEM_NAME", codes "pcut_item_" ++ decimal n, 0)
    ∷ (codes "PCUT_ITEM_NAME_PREV", codes "pcut_item_" ++ one_less n, 0)
    ∷ (codes "PCUT_ITEM_COUNTER_INCREMENT", [], 1)
    ∷ (codes "PCUT_ITEM2_NAME", codes "pcut_item2_" ++ decimal n, 0)
    ∷ (codes "PCUT_ITEM3_NAME", codes "pcut_item3_" ++ decimal n, 0)
    ∷ []

-- Any other identifier stands for itself.
abbrev pub replaced : Bytes → List (Bytes × Bytes × ℕ) → Bytes × ℕ
replaced w [] = (w, 0)
replaced w (r ∷ rs) = if str_equals w r.0 then (r.1, r.2) else replaced w rs

-- The identifiers replaced from left to right.
abbrev pub expanded : List Piece → Bytes → ℕ → Bytes
expanded [] last n = (replaced last (replacements n)).0
expanded ((w, c) ∷ ps) last n =
    let r = replaced w (replacements n) in r.0 ++ c ∷ expanded ps last (n + r.1)

one_before :
    (n : ℕ)
    → n ≡ n + 0
    → ◌≡◌ {A = Bytes × ℕ}
        (codes "pcut_item_" ++ decimal_int (previous_number n), n)
        (codes "pcut_item_" ++ one_less n, n + 0)
unfolding decimal_int
one_before zero e = ap (λ (m : ℕ). (codes "pcut_item_-1", m)) e
one_before (suc n) e = ap (λ (m : ℕ). (codes "pcut_item_" ++ decimal n, m)) e

expand-replaced :
    (w : Bytes) (n : ℕ) → expand w n ≡ (let r = replaced w (replacements n) in (r.0, n + r.1))
unfolding expand print_numbered_identifier decimal_int
expand-replaced w n =
    let plus : n ≡ n + 0 = omega arith in
    elim (Bool-cases (str_equals w (codes "PCUT_ITEM_NAME"))) [
      | inl a ↦ rw a (ap (λ (m : ℕ). (codes "pcut_item_" ++ decimal n, m)) plus)
      | inr a ↦ elim (Bool-cases (str_equals w (codes "PCUT_ITEM_NAME_PREV"))) [
        | inl b ↦ rw (a, b) (one_before n plus)
        | inr b ↦ elim (Bool-cases (str_equals w (codes "PCUT_ITEM_COUNTER_INCREMENT"))) [
          | inl c ↦ rw (a, b, c) refl
          | inr c ↦ elim (Bool-cases (str_equals w (codes "PCUT_ITEM2_NAME"))) [
            | inl d ↦ rw (a, b, c, d) (ap (λ (m : ℕ). (codes "pcut_item2_" ++ decimal n, m)) plus)
            | inr d ↦ elim (Bool-cases (str_equals w (codes "PCUT_ITEM3_NAME"))) [
              | inl e ↦
                  rw (a, b, c, d, e) (ap (λ (m : ℕ). (codes "pcut_item3_" ++ decimal n, m)) plus)
              | inr e ↦ rw (a, b, c, d, e) (ap (λ m. (w, m)) plus)
            ]
          ]
        ]
      ]
    ]

abbrev at_word : ℕ → Bool → Bytes → Bytes → Preproc
at_word n b v out = record {
  counter = n;
  last_char_was_identifier = b;
  last_identifier = v;
  output = out;
}

add_fits : (v : Bytes) (c : ℕ) → length v + 1 < 256 → identifier_add_char v c ≡ some (v ++ c ∷ [])
unfolding identifier_add_char
add_fits v c l = ground arith

module _ (isalpha isdigit : ℕ → Bool) where
  abbrev pub starts : ℕ → Bool
  starts c = isalpha c || c == b'_'

  abbrev pub goes_on : ℕ → Bool
  goes_on c = starts c || isdigit c

  abbrev pub AllGoOn : Bytes → Type 0
  AllGoOn [] = Unit {0}
  AllGoOn (c ∷ w) = (goes_on c ≡ true) × AllGoOn w

  -- An identifier of the length that the program takes, or nothing.
  abbrev pub IsWord : Bytes → Type 0
  IsWord [] = Unit {0}
  IsWord (c ∷ w) = (starts c ≡ true) × AllGoOn w × (length (c ∷ w) < 256)

  -- the character behind an identifier does not go on with it
  abbrev pub Ends : Bytes → ℕ → Type 0
  Ends [] c = starts c ≡ false
  Ends (b ∷ w) c = goes_on c ≡ false

  abbrev pub ArePieces : List Piece → Type 0
  ArePieces [] = Unit {0}
  ArePieces ((w, c) ∷ ps) = IsWord w × Ends w c × ArePieces ps

  char_added :
      (c n : ℕ) (v out : Bytes)
      → goes_on c ≡ true
      → length v + 1 < 256
      → read_char isalpha isdigit c (at_word n true v out) ≡ some (at_word n true (v ++ c ∷ []) out)
  unfolding read_char is_identifier_char
  char_added c n v out g l = ground (arith, add_fits v c l)

  char_starts :
      (c n : ℕ) (v out : Bytes)
      → starts c ≡ true
      → read_char isalpha isdigit c (at_word n false v out) ≡ some (at_word n true (c ∷ []) out)
  unfolding read_char is_identifier_char
  char_starts c n v out s = ground (arith, add_fits [] c (omega arith))

  char_expands :
      (c n : ℕ) (v out : Bytes)
      → goes_on c ≡ false
      → read_char isalpha isdigit c (at_word n true v out)
        ≡ some (at_word (expand v n).1 false v ((out ++ (expand v n).0) ++ c ∷ []))
  unfolding read_char is_identifier_char identifier_print_or_expand
  char_expands c n v out g = ground arith

  char_ends :
      (c n : ℕ) (v out : Bytes)
      → goes_on c ≡ false
      → (let r = replaced v (replacements n) in
          read_char isalpha isdigit c (at_word n true v out)
          ≡ some (at_word (n + r.1) false v ((out ++ r.0) ++ c ∷ [])))
  char_ends c n v out g =
      char_expands c n v out g
      ∙ ap (λ (r : Bytes × ℕ). some (at_word r.1 false v ((out ++ r.0) ++ c ∷ [])))
          (expand-replaced v n)

  char_other :
      (c n : ℕ) (v out : Bytes)
      → starts c ≡ false
      → read_char isalpha isdigit c (at_word n false v out)
        ≡ some (at_word n false v (out ++ c ∷ []))
  unfolding read_char is_identifier_char
  char_other c n v out g = ground arith

  read_step :
      (c : ℕ) (rest : Bytes) (s t : Preproc)
      → read_char isalpha isdigit c s ≡ some t
      → read_all_chars isalpha isdigit (c ∷ rest) s ≡ read_all_chars isalpha isdigit rest t
  unfolding read_all_chars
  read_step c rest s t e = rw (read_all_chars, e) refl

  read_goes_on :
      (w rest v out : Bytes) (n : ℕ)
      → AllGoOn w
      → length v + length w < 256
      → read_all_chars isalpha isdigit (w ++ rest) (at_word n true v out)
        ≡ read_all_chars isalpha isdigit rest (at_word n true (v ++ w) out)
  read_goes_on [] rest v out n g l = rw (append-nil v) refl
  read_goes_on (c ∷ w) rest v out n g l =
      read_step c (w ++ rest) (at_word n true v out) (at_word n true (v ++ c ∷ []) out)
        (char_added c n v out g.0 (omega arith))
      ∙ read_goes_on w rest (v ++ c ∷ []) out n g.1 (omega (arith, length-append v (c ∷ [])))
      ∙ ap (λ x. read_all_chars isalpha isdigit rest (at_word n true x out))
          (append_assoc v (c ∷ []) w)

  read_word :
      (c n : ℕ) (w rest v out : Bytes)
      → IsWord (c ∷ w)
      → read_all_chars isalpha isdigit ((c ∷ w) ++ rest) (at_word n false v out)
        ≡ read_all_chars isalpha isdigit rest (at_word n true (c ∷ w) out)
  read_word c n w rest v out i =
      read_step c (w ++ rest) (at_word n false v out) (at_word n true (c ∷ []) out)
        (char_starts c n v out i.0)
      ∙ read_goes_on w rest (c ∷ []) out n i.1 (omega arith)

  read-expanded :
      (ps : List Piece) (last v out : Bytes) (n : ℕ)
      → ArePieces ps
      → IsWord last
      → finish (read_all_chars isalpha isdigit (text ps last) (at_word n false v out))
        ≡ some ((out ++ expanded ps last n) ++ b'\n' ∷ [])
  unfolding read_all_chars finish identifier_print_or_expand str_equals
  read-expanded [] [] v out n a l = rw (append-nil out) refl
  read-expanded [] (c ∷ w) v out n a l =
      let word = read_word c n w [] v out l in
      ap finish (
        ap (λ x. read_all_chars isalpha isdigit x (at_word n false v out))
          (sym (append-nil (c ∷ w)))
        ∙ word)
      ∙ ap (λ (r : Bytes × ℕ). some ((out ++ r.0) ++ b'\n' ∷ [])) (expand-replaced (c ∷ w) n)
  read-expanded (([], c) ∷ ps) last v out n a l =
      let rest = expanded ps last n in
      let same : n + 0 ≡ n = omega arith in
      ap finish (
        read_step c (text ps last) (at_word n false v out) (at_word n false v (out ++ c ∷ []))
          (char_other c n v out a.1))
      ∙ read-expanded ps last v (out ++ c ∷ []) n a.2 l
      ∙ ap (λ x. some (x ++ b'\n' ∷ [])) (append_assoc out (c ∷ []) rest)
      ∙ ap (λ m. some ((out ++ c ∷ expanded ps last m) ++ b'\n' ∷ [])) (sym same)
  read-expanded ((b ∷ w, c) ∷ ps) last v out n a l =
      let r = replaced (b ∷ w) (replacements n) in
      let rest = expanded ps last (n + r.1) in
      ap finish (
        read_word b n w (c ∷ text ps last) v out a.0
        ∙ read_step c (text ps last) (at_word n true (b ∷ w) out)
            (at_word (n + r.1) false (b ∷ w) ((out ++ r.0) ++ c ∷ []))
            (char_ends c n (b ∷ w) out a.1))
      ∙ read-expanded ps last (b ∷ w) ((out ++ r.0) ++ c ∷ []) (n + r.1) a.2 l
      ∙ ap (λ x. some (x ++ b'\n' ∷ []))
          (append_assoc (out ++ r.0) (c ∷ []) rest ∙ append_assoc out r.0 (c ∷ rest))

  -- The preprocessor prints its input with a newline behind it and each of five identifiers
  -- replaced: PCUT_ITEM_NAME, PCUT_ITEM2_NAME and PCUT_ITEM3_NAME by a name with the number of
  -- PCUT_ITEM_COUNTER_INCREMENT before it, PCUT_ITEM_NAME_PREV by the name with one less, and
  -- PCUT_ITEM_COUNTER_INCREMENT by nothing. The condition is that the input is cut into its
  -- identifiers and the characters behind them, and that each identifier is shorter than 256
  -- bytes.
  pub preprocess-expanded :
      (ps : List Piece) (last : Bytes)
      → ArePieces ps
      → IsWord last
      → preprocess isalpha isdigit (text ps last) ≡ some (expanded ps last 0 ++ b'\n' ∷ [])
  unfolding preprocess
  preprocess-expanded ps last a l = read-expanded ps last [] [] 0 a l
