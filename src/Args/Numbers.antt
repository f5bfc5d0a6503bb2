-- ===== src/Args/Numbers.antt =====
-- Numbers on the command line: `%d` of src/os and `pcut_str_to_int` of src/os/stdc.c.
use pcut.Common.{
  ℕ, zero, suc, ◌+◌, ◌-◌, ◌*◌, ◌/◌, ◌%◌, ◌<◌, ◌≡◌, refl, sym, ap, ◌∙◌, Bool, true, false, ◌&&◌,
  some, none, [], ◌∷◌, ◌++◌, Bytes, codes, arith, pos, decimal, decimal_loop, ◌==◌, leb, Bool-cases,
  inl, inr,
}
use pcut.Args.{is_digit, is_space, digits_value, str_to_int, str_start_equals, is_arg_with_number}

-- A text that starts with a digit.
abbrev pub starts_number : Bytes → Bool
starts_number [] = false
starts_number (c ∷ cs) = leb b'0' c && leb c b'9'

digit : (n : ℕ) → is_digit (b'0' + n % 10) ≡ true
unfolding is_digit
digit n = ground arith

one_digit :
    (n acc : ℕ) (rest : Bytes)
    → digits_value ((b'0' + n % 10) ∷ rest) acc ≡ digits_value rest (acc * 10 + n % 10)
unfolding digits_value
one_digit n acc rest = let e : (b'0' + n % 10) - b'0' ≡ n % 10 = omega arith in rw (digit n, e) refl

digits_value-loop :
    (f n : ℕ) (rest : Bytes) → n < f → digits_value (decimal_loop f n rest) 0 ≡ digits_value rest n
unfolding decimal_loop
digits_value-loop zero n rest l = absurd (omega arith)
digits_value-loop (suc f) n rest l = elim (Bool-cases ((n / 10) == 0)) [
  | inl z ↦
      let e : 0 * 10 + n % 10 ≡ n = ground arith in
      rw z (one_digit n 0 rest ∙ ap (λ k. digits_value rest k) e)
  | inr z ↦
      let e : (n / 10) * 10 + n % 10 ≡ n = omega arith in
      rw z (
        digits_value-loop f (n / 10) ((b'0' + n % 10) ∷ rest) (ground arith)
        ∙ one_digit n (n / 10) rest
        ∙ ap (λ k. digits_value rest k) e)
]

starts_number-loop : (f n : ℕ) (rest : Bytes) → n < f → starts_number (decimal_loop f n rest) ≡ true
unfolding decimal_loop
starts_number-loop zero n rest l = absurd (omega arith)
starts_number-loop (suc f) n rest l = elim (Bool-cases ((n / 10) == 0)) [
  | inl z ↦ rw z (ground arith)
  | inr z ↦ rw z (starts_number-loop f (n / 10) ((b'0' + n % 10) ∷ rest) (ground arith))
]

pub starts_number-decimal : (n : ℕ) → starts_number (decimal n) ≡ true
unfolding decimal
starts_number-decimal n = starts_number-loop (suc n) n [] (omega arith)

str_to_int-digits : (cs : Bytes) → starts_number cs ≡ true → str_to_int cs ≡ pos (digits_value cs 0)
unfolding str_to_int
str_to_int-digits [] e = cc
str_to_int-digits (c ∷ cs) e =
    let blank : is_space c ≡ false = ground arith in
    let minus : c == 45 ≡ false = ground arith in
    let plus : c == 43 ≡ false = ground arith in rw (blank, minus, plus) refl

-- A number that is printed is read back.
pub str_to_int-decimal : (n : ℕ) → str_to_int (decimal n) ≡ pos n
unfolding decimal digits_value
str_to_int-decimal n =
    str_to_int-digits (decimal n) (starts_number-decimal n)
    ∙ ap pos (digits_value-loop (suc n) n [] (omega arith))

-- Different numbers are printed differently.
pub decimal-injective : (m n : ℕ) → decimal m ≡ decimal n → pos m ≡ pos n
decimal-injective m n e = sym (str_to_int-decimal m) ∙ ap str_to_int e ∙ str_to_int-decimal n

-- The argument that selects a test is read as its number, and as nothing else.
pub is_arg_with_number-decimal :
    (n : ℕ)
    → (is_arg_with_number (codes "-t" ++ decimal n) (codes "-t") ≡ some (pos n))
      × (is_arg_with_number (codes "-t" ++ decimal n) (codes "-s") ≡ none)
unfolding is_arg_with_number str_start_equals
is_arg_with_number-decimal n = (ap some (str_to_int-decimal n), refl)

-- The argument that selects a suite.
pub is_arg_with_number-decimal_suite :
    (n : ℕ)
    → (is_arg_with_number (codes "-s" ++ decimal n) (codes "-s") ≡ some (pos n))
      × (is_arg_with_number (codes "-s" ++ decimal n) (codes "-t") ≡ none)
unfolding is_arg_with_number str_start_equals
is_arg_with_number-decimal_suite n = (ap some (str_to_int-decimal n), refl)
