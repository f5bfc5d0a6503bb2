-- ===== src/Main/Verdicts.antt =====
-- src/main.c with src/report/tap.c: a run whose tests have outcomes that do not depend on each other.
use pcut.Common.{
  ℕ, ◌+◌, ◌≡◌, ◌≤◌, some, refl, ap, ◌∙◌, List, [], ◌∷◌, arith, length, done, Bool-cases, inl, inr,
  ◌==◌, if◌then◌else◌,
}
use pcut.Item.{Addr, Store, is_test, is_testsuite}
use pcut.Report.Counted.{fault}
use pcut.Report.State.{Report}
use pcut.Report.{report_init, report_done, report_suite_start}
use pcut.Items.Walk.{Chain}
use pcut.TestRun.{World, RunState}
use pcut.Main.Ends.{Runner, RunMode, outcome_fail, set_report, goes}
use pcut.Main.Members.{ComesBack, with_items, suite_tests, All, AllTests, suite_tests-All}
use pcut.Main.Judged.{judged, suite_result}
use pcut.Main.Loop.{run_all}
use pcut.Main.Whole.{whole, run_all-linked, suite_result-Ready}
use pcut.Main.Tally.{testsuite-not_test, code-join, code-suite}

-- How many of the tests fail, and how many of the items are tests that fail.
abbrev pub failing : (Addr → ℕ) → List Addr → ℕ
failing out [] = 0
failing out (a ∷ ts) = fault (out a) + failing out ts

abbrev pub failing_among : Store → (Addr → ℕ) → List Addr → ℕ
failing_among h out [] = 0
failing_among h out (a ∷ xs) =
    (if is_test (h a).kind then fault (out a) else 0) + failing_among h out xs

-- Those of the suites.
abbrev pub failing_run : Store → (Addr → ℕ) → List Addr → ℕ
failing_run h out [] = 0
failing_run h out (a ∷ xs) =
    if is_testsuite (h a).kind
    then failing out (suite_tests h xs) + failing_run h out xs
    else failing_run h out xs

pub failing_among-failing_run :
    (h : Store) (out : Addr → ℕ) (xs : List Addr)
    → failing_among h out xs ≡ failing out (suite_tests h xs) + failing_run h out xs
failing_among-failing_run h out [] = refl
failing_among-failing_run h out (a ∷ xs) = elim (Bool-cases (is_testsuite (h a).kind)) [
  | inl s ↦
      rw (s, testsuite-not_test (h a).kind s) (omega (arith, failing_among-failing_run h out xs))
  | inr s ↦ elim (Bool-cases (is_test (h a).kind)) [
    | inl t ↦ rw (s, t) (omega (arith, failing_among-failing_run h out xs))
    | inr t ↦ rw (s, t) (omega (arith, failing_among-failing_run h out xs))
  ]
]

-- A test that is run has the outcome `out`.
abbrev pub Tells :
    {U : Type 0}
    → (Addr → World U → ℕ × World U)
    → Store
    → (RunState → U → Type 0)
    → (Addr → Type 0)
    → (Addr → ℕ)
    → Type 0
Tells {U} judge h Ready Runs out =
    (a : Addr) (w : World U) → Runs a → Ready w.run w.user → (judge a (with_items h w)).0 ≡ out a

module _ {U : Type 0} (runner : Runner U) (mode : RunMode) (judge : Addr → World U → ℕ × World U)
    (h : Store) (Ready : RunState → U → Type 0) (Runs : Addr → Type 0) (out : Addr → ℕ)
    (back : ComesBack runner mode judge h Ready Runs) (tells : Tells judge h Ready Runs out) where
  judged-failing :
      (ts : List Addr) (rc : ℕ) (w : World U)
      → All Runs ts
      → Ready w.run w.user
      → (judged runner mode judge ts rc (with_items h w)).0
        ≡ (if failing out ts == 0 then rc else outcome_fail)
  judged-failing [] rc w ok ready = refl
  judged-failing (a ∷ ts) rc w ok ready =
      let j = judge a (with_items h w) in
      judged-failing ts (if j.0 == 0 then rc else outcome_fail) j.1 ok.1 (back a w ok.0 ready).1
      ∙ code-join j.0 (failing out ts) rc
      ∙ ap (λ o. if (fault o + failing out ts) == 0 then rc else outcome_fail)
          (tells a w ok.0 ready)

  suite_result-failing :
      (suite : Addr) (ts : List Addr) (w : World U)
      → All Runs ts
      → Ready w.run w.user
      → (suite_result runner mode judge suite ts (with_items h w)).0
        ≡ (if failing out ts == 0 then 0 else outcome_fail)
  suite_result-failing suite [] w ok ready = refl
  suite_result-failing suite (t ∷ ts) w ok ready =
      judged-failing (t ∷ ts) 0 (set_report w (report_suite_start (h suite) w.report)) ok ready

  whole-failing_run :
      (xs : List Addr) (rc : ℕ) (w : World U)
      → AllTests h Runs xs
      → Ready w.run w.user
      → (whole runner mode judge h xs rc (with_items h w)).0
        ≡ (if failing_run h out xs == 0 then rc else outcome_fail)
  whole-failing_run [] rc w ok ready = refl
  whole-failing_run (a ∷ xs) rc w ok ready =
      let ts = suite_tests h xs in
      let here = suite_tests-All h Runs xs ok.1 in
      let r = suite_result runner mode judge a ts (with_items h w) in
      elim (Bool-cases (is_testsuite (h a).kind)) [
        | inl s ↦ rw s (
            whole-failing_run xs (if r.0 == 0 then rc else r.0) r.1 ok.1
              (suite_result-Ready runner mode judge h Ready Runs back a ts w here ready)
            ∙ code-suite r.0 (failing out ts) (failing_run h out xs) rc
                (suite_result-failing a ts w here ready))
        | inr s ↦ rw s (whole-failing_run xs rc w ok.1 ready)
      ]

  -- A run of all tests, none of them before the first suite, with any report that can be begun: the
  -- return code is that of the failures.
  pub scored_run :
      (n : ℕ) (first : Addr) (xs : List Addr) (w : World U) (r : Report)
      → Chain h (some first) xs
      → AllTests h Runs xs
      → Ready w.run w.user
      → length xs ≤ n
      → suite_tests h xs ≡ []
      → report_init n h (some first) w.report ≡ done r
      → (v : World U) × (run_all runner mode n (some first) (with_items h w)
          ≡ goes (if failing_among h out xs == 0 then 0 else outcome_fail) v)
        × (v.report
            ≡ report_done (whole runner mode judge h xs 0 (with_items h (set_report w r))).1.report)
  scored_run n first xs w r c ok ready l none_before init =
      let end = whole runner mode judge h xs 0 (with_items h (set_report w r)) in
      let none_failed : failing out (suite_tests h xs) ≡ 0 = ap (failing out) none_before in
      let failures : failing_run h out xs ≡ failing_among h out xs =
        omega (arith, failing_among-failing_run h out xs, none_failed) in
      (
        set_report end.1 (report_done end.1.report),
        run_all-linked runner mode judge h Ready Runs back n first xs w r c ok ready l init
            ∙ ap (λ m. goes m (set_report end.1 (report_done end.1.report)))
                (whole-failing_run xs 0 (set_report w r) ok ready
                  ∙ ap (λ m. if m == 0 then 0 else outcome_fail) failures),
        refl,
      )
