-- ===== src/Macros/Names.antt =====
-- include/pcut/prevs.h and the names of include/pcut/tests.h: how an item finds the item before.
--
-- An item is called by the counter of its macro, and the macros of prevs.h, one for each number, give the
-- number before. In a file whose counter starts at 0 the number of an item is how many stand before it.
use pcut.Common.{
  ℕ, suc, ◌-◌, ◌≡◌, refl, ap, ◌∙◌, true, false, ◌&&◌, Option, none, some, List, [], ◌∷◌, ◌++◌,
  Bytes, codes, decimal, arith, leb, ltb, ◌==◌, if◌then◌else◌, Bool-cases, inl, inr,
}
use pcut.Item.{Addr, Ptr}
use pcut.Args.{str_equals}
use pcut.Asserts.Holding.{str_equals_refl}
use pcut.Args.Numbers.{starts_number, starts_number-decimal}
use pcut.Macros.{Source, pcut_init, declares, Declaration}
use pcut.Macros.Layout.{last_item}

-- PCUT_PREV_1 to PCUT_PREV_300
unfoldable pub pcut_prev : ℕ → Option ℕ
pcut_prev n = if ltb 0 n && leb n 300 then some (n - 1) else none

-- PCUT_ITEM_NAME
unfoldable pub item_name : ℕ → Bytes
item_name number = codes "pcut_item_" ++ decimal number

-- PCUT_ITEM_NAME_PREV; a name that is no macro is left as it is.
unfoldable pub item_name_prev : ℕ → Bytes
unfolding pcut_prev
item_name_prev number = codes "pcut_item_" ++ (elim (pcut_prev number) [
  | some previous ↦ decimal previous
  | none ↦ codes "PCUT_PREV_" ++ decimal number
])

-- The counter, and the names that are declared.
abbrev pub counter : Source → ℕ
counter (pcut_init a b) = 2
counter (declares s a d) = suc (counter s)

abbrev pub scope : Source → List (Bytes × Addr)
scope (pcut_init a b) = (item_name 1, b) ∷ (item_name 0, a) ∷ []
scope (declares s a d) = (item_name (counter s), a) ∷ scope s

abbrev pub look_up : Bytes → List (Bytes × Addr) → Ptr
look_up name [] = none
look_up name ((n, a) ∷ names) = if str_equals name n then some a else look_up name names

-- No item is called by the number of a macro that is not there.
no_number :
    (t ds : Bytes) → starts_number ds ≡ true → str_equals (codes "PCUT_PREV_" ++ t) ds ≡ false
unfolding str_equals
no_number t [] e = cc
no_number t (c ∷ cs) e = let differs : (80 == c) ≡ false = ground arith in rw differs refl

undeclared :
    (s : Source) (n : ℕ)
    → look_up (codes "pcut_item_" ++ (codes "PCUT_PREV_" ++ decimal n)) (scope s) ≡ none
unfolding item_name str_equals
undeclared (pcut_init a b) n =
    rw
      (
        no_number (decimal n) (decimal 1) (starts_number-decimal 1),
        no_number (decimal n) (decimal 0) (starts_number-decimal 0),
      )
      refl
undeclared (declares s a d) n =
    rw (no_number (decimal n) (decimal (counter s)) (starts_number-decimal (counter s)))
      (undeclared s n)

no_macro :
    (n : ℕ)
    → leb n 300 ≡ false
    → item_name_prev n ≡ codes "pcut_item_" ++ (codes "PCUT_PREV_" ++ decimal n)
unfolding item_name_prev
no_macro n e = let positive : ltb 0 n ≡ true = ground arith in rw (positive, e) refl

a_macro : (n : ℕ) → leb (suc n) 300 ≡ true → item_name_prev (suc n) ≡ item_name n
unfolding item_name_prev item_name
a_macro n e =
    let positive : ltb 0 (suc n) ≡ true = ground arith in
    let before : suc n - 1 ≡ n = omega arith in rw (positive, e, before) refl

found :
    (s : Source) (a : Addr) (d : Declaration)
    → look_up (item_name (counter s)) (scope (declares s a d)) ≡ some a
found s a d = rw (str_equals_refl (item_name (counter s))) refl

-- In a file whose counter starts at 0, the name by which the next item refers to the one before is
-- that of the last item, up to the number 300; beyond it the name is declared nowhere.
pub look_up-last_item :
    (s : Source)
    → look_up (item_name_prev (counter s)) (scope s)
      ≡ (if leb (counter s) 300 then last_item s else none)
look_up-last_item (pcut_init a b) =
    ap (λ name. look_up name (scope (pcut_init a b))) (a_macro 1 refl)
    ∙ rw (str_equals_refl (item_name 1)) refl
look_up-last_item (declares s a d) =
    let names = scope (declares s a d) in
    elim (Bool-cases (leb (suc (counter s)) 300)) [
      | inl e ↦ ap (λ name. look_up name names) (a_macro (counter s) e) ∙ found s a d ∙ rw e refl
      | inr e ↦
          ap (λ name. look_up name names) (no_macro (suc (counter s)) e)
          ∙ undeclared (declares s a d) (suc (counter s))
          ∙ rw e refl
    ]
