-- ===== src/Common/Lists.antt =====
-- Lists over the native numbers, and bytes.
use Prim.Native.Nat.{ℕ, zero, suc, ◌+◌, ◌-◌, min}
use Prim.Native.Char.{code}
use Prim.Native.String.{String}
use mathlib.Core.Path.{◌≡◌, refl, ap}
use mathlib.Core.Bool.{Bool, true, false, ◌||◌, or_assoc}
use mathlib.Core.List.{List, [], ◌∷◌, ◌++◌}
use native.Mathlib.Omega.{arith}
use pcut.Common.Tests.{◌==◌}

module _ {ℓ} {A : Type ℓ} where
  abbrev pub length : List A → ℕ
  length [] = 0
  length (x ∷ xs) = suc (length xs)

  abbrev pub take : ℕ → List A → List A
  take zero xs = []
  take (suc n) [] = []
  take (suc n) (x ∷ xs) = x ∷ take n xs

  abbrev pub drop : ℕ → List A → List A
  drop zero xs = xs
  drop (suc n) [] = []
  drop (suc n) (x ∷ xs) = drop n xs

  abbrev pub replicate : ℕ → A → List A
  replicate zero a = []
  replicate (suc n) a = a ∷ replicate n a

module _ {ℓ} {A : Type ℓ} where
  pub length-append : (xs ys : List A) → length (xs ++ ys) ≡ length xs + length ys
  length-append [] ys = omega arith
  length-append (x ∷ xs) ys = omega (arith, length-append xs ys)

  pub length-take : (n : ℕ) (xs : List A) → length (take n xs) ≡ min n (length xs)
  length-take zero xs = omega arith
  length-take (suc n) [] = omega arith
  length-take (suc n) (x ∷ xs) = omega (arith, length-take n xs)

  pub length-drop : (n : ℕ) (xs : List A) → length (drop n xs) ≡ length xs - n
  length-drop zero xs = omega arith
  length-drop (suc n) [] = omega arith
  length-drop (suc n) (x ∷ xs) = omega (arith, length-drop n xs)

  pub length-replicate : (n : ℕ) (a : A) → length (replicate n a) ≡ n
  length-replicate zero a = refl
  length-replicate (suc n) a = ap suc (length-replicate n a)

-- The bytes of a text; every literal of the program is ASCII.
abbrev pub Bytes : Type 0
Bytes = List ℕ

abbrev pub codes : String → Bytes
codes String.[] = []
codes (String.◌∷◌ c s) = code c ∷ codes s

-- membership of a list of numbers, and lists that hold no number twice
abbrev pub has : ℕ → List ℕ → Bool
has a [] = false
has a (x ∷ xs) = (a == x) || has a xs

abbrev pub AllDistinct : List ℕ → Type 0
AllDistinct [] = Unit {0}
AllDistinct (x ∷ xs) = (has x xs ≡ false) × AllDistinct xs

pub has-append : (a : ℕ) (xs ys : List ℕ) → has a (xs ++ ys) ≡ (has a xs || has a ys)
has-append a [] ys = refl
has-append a (x ∷ xs) ys = rw (has-append a xs ys, or_assoc)

pub distinct-right : (xs ys : List ℕ) → AllDistinct (xs ++ ys) → AllDistinct ys
distinct-right [] ys d = d
distinct-right (x ∷ xs) ys d = distinct-right xs ys d.1

pub distinct-left : (xs ys : List ℕ) → AllDistinct (xs ++ ys) → AllDistinct xs
distinct-left [] ys d = tt
distinct-left (x ∷ xs) ys d = (ground (arith, d.0, has-append x xs ys), distinct-left xs ys d.1)

-- What stands in the first part does not stand in the second.
pub distinct-apart :
    (xs ys : List ℕ) (a : ℕ) → AllDistinct (xs ++ ys) → has a xs ≡ true → has a ys ≡ false
distinct-apart [] ys a d m = cc
distinct-apart (x ∷ xs) ys a d m =
    ground (arith, d.0, has-append x xs ys, distinct-apart xs ys a d.1)

pub has-left : (xs ys : List ℕ) (a : ℕ) → has a (xs ++ ys) ≡ false → has a xs ≡ false
has-left xs ys a o = ground (arith, has-append a xs ys)

pub has-right : (xs ys : List ℕ) (a : ℕ) → has a (xs ++ ys) ≡ false → has a ys ≡ false
has-right xs ys a o = ground (arith, has-append a xs ys)

pub has_in_left : (xs ys : List ℕ) (a : ℕ) → has a xs ≡ true → has a (xs ++ ys) ≡ true
has_in_left xs ys a o = ground (arith, has-append a xs ys)

pub has_in_right : (xs ys : List ℕ) (a : ℕ) → has a ys ≡ true → has a (xs ++ ys) ≡ true
has_in_right xs ys a o = ground (arith, has-append a xs ys)
