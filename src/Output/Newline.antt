-- ===== src/Output/Newline.antt =====
-- The newline at the end of the output of a test, which `read_all` of src/os removes before the output is
-- parsed by src/report/report.c.
use pcut.Common.{
  suc, ◌≤◌, ◌≡◌, refl, sym, ap, ◌∙◌, true, false, some, List, [], ◌∷◌, ◌++◌, Bytes, arith,
  append-nil, append_assoc, length, length-append, ◌==◌, if◌then◌else◌, Bool-cases, inl, inr, Bool,
}
use pcut.Output.{print_fail_message}
use pcut.Output.Parse.{NoNul}
use pcut.Output.RoundTrip.{Chunk, plain, failure, render, plain_text, message_lines, NoNuls}

abbrev pub without_newline : Bytes → Bytes
without_newline [] = []
without_newline (b ∷ []) = if b == 10 then [] else b ∷ []
without_newline (b ∷ c ∷ bs) = b ∷ without_newline (c ∷ bs)

abbrev is_empty : Bytes → Bool
is_empty [] = true
is_empty (b ∷ bs) = false

empty-nil : (xs : Bytes) → is_empty xs ≡ true → xs ≡ []
empty-nil [] e = refl
empty-nil (b ∷ bs) e = cc

-- What a test says when the newline at the very end of its output is left out.
abbrev pub trim : List Chunk → List Chunk
trim [] = []
trim (plain t ∷ cs) =
    if is_empty (render cs) then plain (without_newline t) ∷ [] else plain t ∷ trim cs
trim (failure m ∷ cs) = if is_empty (render cs) then failure m ∷ [] else failure m ∷ trim cs

without_newline-append :
    (xs ys : Bytes) → is_empty ys ≡ false → without_newline (xs ++ ys) ≡ xs ++ without_newline ys
without_newline-append [] ys e = refl
without_newline-append (x ∷ []) [] e = cc
without_newline-append (x ∷ []) (y ∷ ys) e = refl
without_newline-append (x ∷ c ∷ xs) ys e = ap (λ t. x ∷ t) (without_newline-append (c ∷ xs) ys e)

without_newline-zero : (xs : Bytes) → without_newline (xs ++ 0 ∷ []) ≡ xs ++ 0 ∷ []
without_newline-zero xs = without_newline-append xs (0 ∷ []) refl

without_newline-print :
    (m : Bytes) → without_newline (print_fail_message (some m)) ≡ print_fail_message (some m)
unfolding print_fail_message
without_newline-print [] = refl
without_newline-print (c ∷ m) =
    let e : (suc (length m) == 0) ≡ false = ground arith in
    rw e (
      ap without_newline (sym (append_assoc (0 ∷ 0 ∷ 0 ∷ c ∷ m) (b'\n' ∷ []) (0 ∷ [])))
      ∙ without_newline-zero ((0 ∷ 0 ∷ 0 ∷ c ∷ m) ++ b'\n' ∷ [])
      ∙ append_assoc (0 ∷ 0 ∷ 0 ∷ c ∷ m) (b'\n' ∷ []) (0 ∷ []))

-- The last piece, when nothing is behind it.
at_end : (t r : Bytes) → is_empty r ≡ true → t ++ r ≡ t
at_end t r e = rw (empty-nil r e) (append-nil t)

pub render-trim : (cs : List Chunk) → render (trim cs) ≡ without_newline (render cs)
render-trim [] = refl
render-trim (plain t ∷ cs) = elim (Bool-cases (is_empty (render cs))) [
  | inl e ↦ rw (e, at_end t (render cs) e) (append-nil (without_newline t))
  | inr e ↦ rw (e, render-trim cs) (sym (without_newline-append t (render cs) e))
]
render-trim (failure m ∷ cs) = elim (Bool-cases (is_empty (render cs))) [
  | inl e ↦
      rw (e, at_end (print_fail_message (some m)) (render cs) e)
        (append-nil (print_fail_message (some m)) ∙ sym (without_newline-print m))
  | inr e ↦
      rw (e, render-trim cs)
        (sym (without_newline-append (print_fail_message (some m)) (render cs) e))
]

-- Nothing is printed by no messages only.
silent :
    (cs : List Chunk) → is_empty (render cs) ≡ true → (message_lines cs ≡ []) × (plain_text cs ≡ [])
unfolding print_fail_message
silent [] e = (refl, refl)
silent (plain [] ∷ cs) e = silent cs e
silent (plain (b ∷ t) ∷ cs) e = cc
silent (failure [] ∷ cs) e = silent cs e
silent (failure (c ∷ m) ∷ cs) e = let z : (suc (length m) == 0) ≡ false = ground arith in cc

pub message_lines-trim : (cs : List Chunk) → message_lines (trim cs) ≡ message_lines cs
message_lines-trim [] = refl
message_lines-trim (plain t ∷ cs) = elim (Bool-cases (is_empty (render cs))) [
  | inl e ↦ rw (e, (silent cs e).0) refl
  | inr e ↦ rw e (message_lines-trim cs)
]
message_lines-trim (failure [] ∷ cs) = elim (Bool-cases (is_empty (render cs))) [
  | inl e ↦ rw (e, (silent cs e).0) refl
  | inr e ↦ rw e (message_lines-trim cs)
]
message_lines-trim (failure (c ∷ m) ∷ cs) = elim (Bool-cases (is_empty (render cs))) [
  | inl e ↦ rw (e, (silent cs e).0) refl
  | inr e ↦ rw (e, message_lines-trim cs) refl
]

NoNul-without_newline : (t : Bytes) → NoNul t → NoNul (without_newline t)
NoNul-without_newline [] n = tt
NoNul-without_newline (b ∷ []) n = elim (Bool-cases (b == 10)) [ inl e ↦ rw e tt | inr e ↦ rw e n ]
NoNul-without_newline (b ∷ c ∷ bs) n = (n.0, NoNul-without_newline (c ∷ bs) n.1)

pub NoNuls-trim : (cs : List Chunk) → NoNuls cs → NoNuls (trim cs)
NoNuls-trim [] n = tt
NoNuls-trim (plain t ∷ cs) n = elim (Bool-cases (is_empty (render cs))) [
  | inl e ↦ rw e (NoNul-without_newline t n.0, tt)
  | inr e ↦ rw e (n.0, NoNuls-trim cs n.1)
]
NoNuls-trim (failure m ∷ cs) n = elim (Bool-cases (is_empty (render cs))) [
  | inl e ↦ rw e (n.0, tt)
  | inr e ↦ rw e (n.0, NoNuls-trim cs n.1)
]

pub length-without_newline : (t : Bytes) → length (without_newline t) ≤ length t
length-without_newline [] = omega arith
length-without_newline (b ∷ []) = elim (Bool-cases (b == 10)) [
  | inl e ↦ rw e (omega arith)
  | inr e ↦ rw e (omega arith)
]
length-without_newline (b ∷ c ∷ bs) = omega (arith, length-without_newline (c ∷ bs))

pub length-trim : (cs : List Chunk) → length (plain_text (trim cs)) ≤ length (plain_text cs)
length-trim [] = omega arith
length-trim (plain t ∷ cs) = elim (Bool-cases (is_empty (render cs))) [
  | inl e ↦
      rw (e, append-nil (without_newline t))
        (omega (arith, length-without_newline t, length-append t (plain_text cs)))
  | inr e ↦ rw e (
      omega (
        arith,
        length-append t (plain_text cs),
        length-append t (plain_text (trim cs)),
        length-trim cs,
      ))
]
length-trim (failure m ∷ cs) = elim (Bool-cases (is_empty (render cs))) [
  | inl e ↦ rw e (omega arith)
  | inr e ↦ rw e (length-trim cs)
]
