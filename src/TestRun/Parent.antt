-- ===== src/TestRun/Parent.antt =====
-- `pcut_find_parent_suite` of src/run.c.
use pcut.Common.{
  ℕ, zero, suc, ◌+◌, ◌≤◌, ◌≡◌, refl, sym, ap, ◌∙◌, true, none, some, List, [], ◌∷◌, arith, length,
  has, if◌then◌else◌, done, Bool-cases, inl, inr, ◌==◌,
}
use pcut.Item.{Addr, Ptr, Item, Store, is_testsuite}
use pcut.Items.Links.{Back}
use pcut.TestRun.{
  SuitePtr, suite_at, default_suite, default_suite_item, suite_item, find_parent_suite,
}

-- The suite behind an item.
abbrev pub suite_after : Store → Ptr → Addr → Ptr
suite_after h cur x = if is_testsuite (h x).kind then some x else cur

-- The last suite of the list up to an item; `cur` is the one before the list.
abbrev pub host : Store → Ptr → List Addr → Addr → Ptr
host h cur [] a = cur
host h cur (x ∷ xs) a = if x == a then suite_after h cur x else host h (suite_after h cur x) xs a

-- The suite that it stands for; the default suite stands for none.
abbrev pub suite_ptr : Ptr → SuitePtr
suite_ptr none = default_suite
suite_ptr (some a) = suite_at a

abbrev pub suite_fields : Store → Ptr → Item
suite_fields h none = default_suite_item
suite_fields h (some a) = h a

pub suite_item-suite_ptr :
    (h : Store) (p : Ptr) → suite_item h (suite_ptr p) ≡ some (suite_fields h p)
suite_item-suite_ptr h none = refl
suite_item-suite_ptr h (some a) = refl

more_fuel :
    (n m : ℕ) (h : Store) (p : Ptr) (s : SuitePtr)
    → find_parent_suite n h p ≡ done s
    → n ≤ m
    → find_parent_suite m h p ≡ done s
unfolding find_parent_suite
more_fuel n m h none s e l = e
more_fuel zero m h (some a) s e l = cc
more_fuel (suc n) zero h (some a) s e l = absurd (omega arith)
more_fuel (suc n) (suc m) h (some a) s e l = elim (Bool-cases (is_testsuite (h a).kind)) [
  | inl t ↦ rw t (rw t at e)
  | inr t ↦ rw t (more_fuel n m h (h a).previous s (rw t at e) (omega arith))
]

-- One item further.
at_item :
    (n : ℕ) (h : Store) (p cur : Ptr) (x : Addr)
    → find_parent_suite n h p ≡ done (suite_ptr cur)
    → (h x).previous ≡ p
    → find_parent_suite (suc n) h (some x) ≡ done (suite_ptr (suite_after h cur x))
unfolding find_parent_suite
at_item n h p cur x e b = elim (Bool-cases (is_testsuite (h x).kind)) [
  | inl t ↦ rw t refl
  | inr t ↦ rw (t, b) e
]

-- `pcut_find_parent_suite` ends and finds the last suite up to an item of a list linked backwards,
-- and else the suite that is found from before the list. The condition is fuel for the length of
-- the list and for the search before it.
pub find_parent_suite-host :
    (n m : ℕ) (h : Store) (p cur : Ptr) (xs : List Addr) (a : Addr)
    → find_parent_suite n h p ≡ done (suite_ptr cur)
    → Back h p xs
    → has a xs ≡ true
    → length xs + n ≤ m
    → find_parent_suite m h (some a) ≡ done (suite_ptr (host h cur xs a))
find_parent_suite-host n m h p cur [] a e b i l = cc
find_parent_suite-host n m h p cur (x ∷ xs) a e b i l =
    let cur' = suite_after h cur x in
    let here = at_item n h p cur x e b.0 in
    elim (Bool-cases (x == a)) [
      | inl q ↦
          let same : x ≡ a = ground arith in
          rw q (
            ap (λ y. find_parent_suite m h (some y)) (sym same)
            ∙ more_fuel (suc n) m h (some x) (suite_ptr cur') here (omega arith))
      | inr q ↦
          let later : has a xs ≡ true = ground arith in
          rw q (find_parent_suite-host (suc n) m h (some x) cur' xs a here b.1 later (omega arith))
    ]
