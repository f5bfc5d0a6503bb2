-- ===== src/Main/Tally.antt =====
-- src/main.c with src/report/tap.c: the counters of the TAP report behind the runs of tests.
use pcut.Common.{
  ℕ, ◌+◌, ◌≡◌, refl, ◌∙◌, true, false, List, [], ◌∷◌, arith, length, Bool-cases, inl, inr, ◌==◌,
  if◌then◌else◌,
}
use pcut.Item.{Addr, Store, Kind, testsuite, is_test, is_testsuite}
use pcut.Items.Walk.{tests_among}
use pcut.Report.Counted.{
  Counted, Counted-join, none-Counted, IsTap, fault, report_suite_start-Counted,
  report_suite_done-Counted,
}
use pcut.TestRun.{World}
use pcut.Main.Ends.{Runner, RunMode, outcome_fail}
use pcut.Main.Members.{with_items, suite_tests, All, AllTests, suite_tests-All}
use pcut.Main.Judged.{judged, suite_result, suite_started}
use pcut.Main.Whole.{whole}

-- The tests of all suites of the list.
abbrev pub tests_run : Store → List Addr → ℕ
tests_run h [] = 0
tests_run h (a ∷ xs) =
    if is_testsuite (h a).kind then length (suite_tests h xs) + tests_run h xs else tests_run h xs

pub testsuite-not_test : (k : Kind) → is_testsuite k ≡ true → is_test k ≡ false
testsuite-not_test testsuite e = refl
testsuite-not_test _ e = cc

-- Each test is counted but for those before the first suite.
pub tests_among-tests_run :
    (h : Store) (xs : List Addr) → tests_among h xs ≡ length (suite_tests h xs) + tests_run h xs
tests_among-tests_run h [] = refl
tests_among-tests_run h (a ∷ xs) = elim (Bool-cases (is_testsuite (h a).kind)) [
  | inl s ↦ rw (s, testsuite-not_test (h a).kind s) (omega (arith, tests_among-tests_run h xs))
  | inr s ↦ elim (Bool-cases (is_test (h a).kind)) [
    | inl t ↦ rw (s, t) (omega (arith, tests_among-tests_run h xs))
    | inr t ↦ rw (s, t) (omega (arith, tests_among-tests_run h xs))
  ]
]

-- A test that is run is counted once, and as failed by its outcome.
abbrev pub CountsTests :
    {U : Type 0} → (Addr → World U → ℕ × World U) → Store → (Addr → Type 0) → Type 0
CountsTests {U} judge h Runs =
    (a : Addr) (w : World U)
    → Runs a
    → IsTap w.report
    → (let j = judge a (with_items h w) in Counted w.report j.1.report 1 (fault j.0))

pub code-join :
    (o f rc : ℕ)
    → (if f == 0 then (if o == 0 then rc else outcome_fail) else outcome_fail)
      ≡ (if (fault o + f) == 0 then rc else outcome_fail)
code-join o f rc = ground arith

pub code-suite :
    (o f g rc : ℕ)
    → o ≡ (if f == 0 then 0 else outcome_fail)
    → (if g == 0 then (if o == 0 then rc else o) else outcome_fail)
      ≡ (if (f + g) == 0 then rc else outcome_fail)
code-suite o f g rc e = ground arith

-- What a run leads to: `n` tests, and a return code that agrees with the counter of failures.
pub record Tallied {U : Type 0} (w : World U) (rc : ℕ) (end : ℕ × World U) (n : ℕ) : Type 0 where
  pub failures : ℕ
  pub counted : Counted w.report end.1.report n failures
  pub code : end.0 ≡ (if failures == 0 then rc else outcome_fail)

nothing_run : {U : Type 0} (w : World U) (rc : ℕ) → IsTap w.report → Tallied w rc (rc, w) 0
nothing_run w rc e = record { failures = 0; counted = none-Counted w.report e; code = refl }

module _ {U : Type 0} (runner : Runner U) (mode : RunMode) (judge : Addr → World U → ℕ × World U)
    (h : Store) (Runs : Addr → Type 0) (counts : CountsTests judge h Runs) where
  judged-Tallied :
      (ts : List Addr) (rc : ℕ) (w : World U)
      → All Runs ts
      → IsTap w.report
      → Tallied (with_items h w) rc (judged runner mode judge ts rc (with_items h w)) (length ts)
  judged-Tallied [] rc w ok e = nothing_run (with_items h w) rc e
  judged-Tallied (a ∷ ts) rc w ok e =
      let j = judge a (with_items h w) in
      let one = counts a w ok.0 e in
      let rest = judged-Tallied ts (if j.0 == 0 then rc else outcome_fail) j.1 ok.1 one.handler in
      record {
        failures = fault j.0 + rest.failures;
        counted = Counted-join one rest.counted (omega arith) refl;
        code = rest.code ∙ code-join j.0 rest.failures rc;
      }

  suite_result-Tallied :
      (suite : Addr) (ts : List Addr) (w : World U)
      → All Runs ts
      → IsTap w.report
      → Tallied
          (with_items h w)
          0
          (suite_result runner mode judge suite ts (with_items h w))
          (length ts)
  suite_result-Tallied suite [] w ok e = nothing_run (with_items h w) 0 e
  suite_result-Tallied suite (t ∷ ts) w ok e =
      let first = report_suite_start-Counted (h suite) w.report e in
      let v = suite_started runner mode judge suite (with_items h w) in
      let run = judged-Tallied (t ∷ ts) 0 v ok first.handler in
      let end = (judged runner mode judge (t ∷ ts) 0 v).1 in
      let last = report_suite_done-Counted (end.store suite) end.report run.counted.handler in
      record {
        failures = run.failures;
        counted =
            Counted-join first (Counted-join run.counted last refl refl) (omega arith)
              (omega arith);
        code = run.code;
      }

  pub whole-Tallied :
      (xs : List Addr) (rc : ℕ) (w : World U)
      → AllTests h Runs xs
      → IsTap w.report
      → Tallied
          (with_items h w)
          rc
          (whole runner mode judge h xs rc (with_items h w))
          (tests_run h xs)
  whole-Tallied [] rc w ok e = nothing_run (with_items h w) rc e
  whole-Tallied (a ∷ xs) rc w ok e =
      let ts = suite_tests h xs in
      let r = suite_result runner mode judge a ts (with_items h w) in
      let suite = suite_result-Tallied a ts w (suite_tests-All h Runs xs ok.1) e in
      let rest = whole-Tallied xs (if r.0 == 0 then rc else r.0) r.1 ok.1 suite.counted.handler in
      elim (Bool-cases (is_testsuite (h a).kind)) [
        | inl s ↦ rw s (record {
          failures = suite.failures + rest.failures;
          counted = Counted-join suite.counted rest.counted refl refl;
          code = rest.code ∙ code-suite r.0 suite.failures rest.failures rc suite.code;
        })
        | inr s ↦ rw s (whole-Tallied xs rc w ok.1 e)
      ]
