-- ===== src/Asserts/Holding.antt =====
-- When the assertions of include/pcut/asserts.h hold.
use pcut.Common.{◌≡◌, ◌↔◌, refl, true, none, [], ◌∷◌, ℤ, pos, negsuc, int_eq, Bytes, arith}
use pcut.Args.{str_equals}
use pcut.Asserts.{assert_int_equals}

-- `pcut_str_equals` tells whether two strings are the same.
pub str_equals-same : (s t : Bytes) → str_equals s t ≡ true → s ≡ t
unfolding str_equals
str_equals-same [] [] e = refl
str_equals-same [] (b ∷ t) e = cc
str_equals-same (b ∷ s) [] e = cc
str_equals-same (b ∷ s) (c ∷ t) e = ground (arith, str_equals-same s t)

pub str_equals_refl : (s : Bytes) → str_equals s s ≡ true
unfolding str_equals
str_equals_refl [] = refl
str_equals_refl (b ∷ s) = ground (arith, str_equals_refl s)

pub int_eq-same : (a b : ℤ) → int_eq a b ≡ true → a ≡ b
int_eq-same (pos a) (pos b) e = ground arith
int_eq-same (negsuc a) (negsuc b) e = ground arith
int_eq-same (pos a) (negsuc b) e = cc
int_eq-same (negsuc a) (pos b) e = cc

pub int_eq_refl : (a : ℤ) → int_eq a a ≡ true
int_eq_refl (pos a) = ground arith
int_eq_refl (negsuc a) = ground arith

-- PCUT_ASSERT_INT_EQUALS holds for equal numbers, and only for them.
assert_int_equals-same : (m n : ℤ) (e a : Bytes) → (assert_int_equals m n e a ≡ none) ↔ (m ≡ n)
unfolding assert_int_equals
assert_int_equals-same m n e a =
    (λ p. int_eq-same m n (ground arith), λ p. ground (arith, int_eq_refl m))
