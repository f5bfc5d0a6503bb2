-- ===== src/Main/Members.antt =====
-- src/main.c: the tests that `run_suite` meets in the list, and what it needs of a way to run them.
use pcut.Common.{
  ℕ, ◌≡◌, refl, true, false, none, some, List, [], ◌∷◌, Bool-cases, inl, inr, if◌then◌else◌,
}
use pcut.Item.{Addr, Ptr, Store, Kind, skip, is_skip, is_test, is_testsuite}
use pcut.TestRun.{World, RunState, finished}
use pcut.Main.Ends.{Runner, RunMode}

-- The tests before the next suite, and that suite.
abbrev pub suite_tests : Store → List Addr → List Addr
suite_tests h [] = []
suite_tests h (a ∷ xs) =
    if is_testsuite (h a).kind
    then []
    else if is_test (h a).kind
    then a ∷ suite_tests h xs
    else suite_tests h xs

abbrev pub next_suite : Store → List Addr → Ptr
next_suite h [] = none
next_suite h (a ∷ xs) = if is_testsuite (h a).kind then some a else next_suite h xs

-- The world behind a test: the verdict's, with the items as they were.
abbrev pub with_items : {U : Type 0} → Store → World U → World U
with_items h w = record w { store = h }

-- A way to run a test that comes back with an outcome, when the test can be run and the flags allow it, and
-- keeps the items and that about the flags.
abbrev pub ComesBack :
    {U : Type 0}
    → Runner U
    → RunMode
    → (Addr → World U → ℕ × World U)
    → Store
    → (RunState → U → Type 0)
    → (Addr → Type 0)
    → Type 0
ComesBack {U} runner mode judge h Ready Runs =
    (a : Addr) (w : World U)
    → Runs a
    → Ready w.run w.user
    → (let j = judge a (with_items h w) in
        (runner mode a (with_items h w) ≡ finished j.0 (with_items h j.1)) × Ready j.1.run j.1.user)

-- What holds of the tests of the list, and of all items of a list.
abbrev pub AllTests : Store → (Addr → Type 0) → List Addr → Type 0
AllTests h Runs [] = Unit {0}
AllTests h Runs (a ∷ xs) = (is_test (h a).kind ≡ true → Runs a) × AllTests h Runs xs

abbrev pub All : (Addr → Type 0) → List Addr → Type 0
All Runs [] = Unit {0}
All Runs (a ∷ ts) = Runs a × All Runs ts

pub suite_tests-All :
    (h : Store) (Runs : Addr → Type 0) (xs : List Addr)
    → AllTests h Runs xs
    → All Runs (suite_tests h xs)
suite_tests-All h Runs [] ok = tt
suite_tests-All h Runs (a ∷ xs) ok = elim (Bool-cases (is_testsuite (h a).kind)) [
  | inl s ↦ rw s tt
  | inr s ↦ elim (Bool-cases (is_test (h a).kind)) [
    | inl t ↦ rw (s, t) (ok.0 t, suite_tests-All h Runs xs ok.1)
    | inr t ↦ rw (s, t) (suite_tests-All h Runs xs ok.1)
  ]
]

pub skip-neither : (k : Kind) → is_skip k ≡ true → (is_testsuite k ≡ false) × (is_test k ≡ false)
skip-neither skip e = (refl, refl)
skip-neither _ e = (cc, cc)
