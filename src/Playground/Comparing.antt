-- ===== src/Playground/Comparing.antt =====
-- contrib/playground/assert_that_generic.c: which values are equal, and what the size of the buffer is for.
use pcut.Common.{
  ℕ, zero, suc, ◌+◌, ◌≤◌, ◌<◌, ◌≡◌, refl, ap, ◌∙◌, subst, Bool, true, false, ◌&&◌, some, [], ◌∷◌, ℤ,
  pos, int_eq, Bytes, ltb, leb, ◌-◌, decimal_int, length, length-take, take, arith, ◌↔◌, Bool-cases,
  inl, inr,
}
use mathlib.Core.Option.{some-injective}
use pcut.Asserts.Holding.{int_eq-same, int_eq_refl}
use pcut.Playground.Typed.{
  assertion_text_buffer_length, append, comparator_integer, comparator_string, Coord,
}
use pcut.Playground.ByType.{
  compare_coord, compare_int, compare_str, append_str, append_int, CType, int_type,
  const_char_pointer, char_pointer, coord_type, other_type, ValueOf, get_type_info, call_compare,
}

abbrev coord : ℤ → ℤ → Coord
coord x y = record { x = x; y = y }

abbrev IsZero : ℤ → Type 0
IsZero c = c ≡ pos 0

comparator_integer-same : (a b : ℤ) → IsZero (comparator_integer a b) ↔ (a ≡ b)
unfolding comparator_integer
comparator_integer-same a b = elim (Bool-cases (int_eq a b)) [
  | inl e ↦ rw e (λ p. int_eq-same a b e, λ p. refl)
  | inr e ↦ rw e (λ p. ground arith, λ p. let t : int_eq a b ≡ true = rw p (int_eq_refl b) in cc)
]

comparator_string-same : (a b : Bytes) → IsZero (comparator_string a b) ↔ (a ≡ b)
unfolding comparator_string
comparator_string-same [] [] = (λ p. refl, λ p. refl)
comparator_string-same [] (b ∷ bs) = (λ p. cc, λ p. cc)
comparator_string-same (a ∷ as') [] = (λ p. cc, λ p. cc)
comparator_string-same (a ∷ as') (b ∷ bs) =
    let rest = comparator_string-same as' bs in
    (λ p. ground (arith, rest.0), λ p. ground (arith, rest.1))

compare_coord-same : (a b : Coord) → IsZero (compare_coord a b) ↔ (a ≡ b)
unfolding compare_coord
compare_coord-same a b = elim (Bool-cases (int_eq a.x b.x && int_eq a.y b.y)) [
  | inl e ↦
      let first : int_eq a.x b.x ≡ true = ground arith in
      let second : int_eq a.y b.y ≡ true = ground arith in
      rw e (
        λ p.
            ap (λ n. coord n a.y) (int_eq-same a.x b.x first)
            ∙ ap (coord b.x) (int_eq-same a.y b.y second),
        λ p. refl,
      )
  | inr e ↦ rw e (
    λ p. cc,
    λ p.
        let t : (int_eq a.x b.x && int_eq a.y b.y) ≡ true =
          subst (λ (c : Coord). (int_eq a.x c.x && int_eq a.y c.y) ≡ true) p
            (ground (arith, int_eq_refl a.x, int_eq_refl a.y)) in
        cc,
  )
]

abbrev pub is_known : CType → Bool
is_known other_type = false
is_known _ = true

some-IsZero : (c : ℤ) → (some c ≡ some (pos 0)) ↔ IsZero c
some-IsZero c = (λ p. some-injective _ _ p, λ p. ap some p)

known :
    {A : Type 0} (c : ℤ) (a b : A)
    → IsZero c ↔ (a ≡ b)
    → (some c ≡ some (pos 0)) ↔ ((true ≡ true) × (a ≡ b))
known c a b s = (λ p. (refl, s.0 (some-injective _ _ p)), λ p. ap some (s.1 p.1))

-- The comparison that is found for the type of a value answers that two values are equal exactly
-- when they are, for numbers, strings and coordinates; for a value of another type there is none
-- to call.
pub call_compare-same :
    (t : CType) (a b : ValueOf t)
    → (call_compare (get_type_info t) a b ≡ some (pos 0)) ↔ ((is_known t ≡ true) × (a ≡ b))
unfolding get_type_info compare_int compare_str
call_compare-same int_type a b = known _ a b (comparator_integer-same a b)
call_compare-same const_char_pointer a b = known _ a b (comparator_string-same a b)
call_compare-same char_pointer a b = known _ a b (comparator_string-same a b)
call_compare-same coord_type a b = known _ a b (compare_coord-same a b)
call_compare-same other_type a b = (λ p. cc, λ p. cc)

take_all : (n : ℕ) (v : Bytes) → length v ≤ n → take n v ≡ v
take_all zero [] l = refl
take_all zero (b ∷ v) l = absurd (omega arith)
take_all (suc n) [] l = refl
take_all (suc n) (b ∷ v) l = ap (λ t. b ∷ t) (take_all n v (omega arith))

append-take :
    (n : ℕ) (v buffer : Bytes)
    → n + 1 ≡ assertion_text_buffer_length
    → 0 < length buffer
    → append (take n v) buffer ≡ append v buffer
unfolding append
append-take n v buffer e l = elim (Bool-cases (leb (length v) n)) [
  | inl f ↦ rw (take_all n v (ground arith)) refl
  | inr f ↦
      let cut : ltb (length buffer + length (take n v)) assertion_text_buffer_length ≡ false =
        ground (arith, length-take n v) in
      let whole : ltb (length buffer + length v) assertion_text_buffer_length ≡ false =
        ground arith in
      rw (cut, whole) refl
]

-- The text of a string or of a number is written behind a text that is not empty as if its size
-- were not limited: it stays inside the buffer only when it fits as a whole, although the size of
-- the buffer is passed.
pub append_str-append :
    (v buffer : Bytes) (n : ℤ)
    → 0 < length buffer
    → (append_str v buffer assertion_text_buffer_length ≡ append v buffer)
      × (append_int n buffer assertion_text_buffer_length ≡ append (decimal_int n) buffer)
unfolding append_str append_int
append_str-append v buffer n l = (
  append-take (assertion_text_buffer_length - 1) v buffer refl l,
  append-take (assertion_text_buffer_length - 1) (decimal_int n) buffer refl l,
)
