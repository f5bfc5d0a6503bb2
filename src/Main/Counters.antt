-- ===== src/Main/Counters.antt =====
-- src/main.c, src/run.c and src/report/tap.c: a run of all tests with the TAP report.
use pcut.Common.{
  ℕ, ◌≤◌, ◌≡◌, refl, ap, ◌∙◌, some, none, List, [], ◌++◌, Bytes, codes, decimal, arith, length,
  ◌==◌, if◌then◌else◌,
}
use pcut.Item.{Addr, Func, Store}
use pcut.Items.Walk.{Chain, tests_among}
use pcut.Report.{report_test_start, report_done}
use pcut.Report.State.{print}
use pcut.Report.Counted.{
  Counted-join, IsTap, planned, print-Counted, report_init-planned, report_test_start-Counted,
  report_test_done-Counted, report_done-Counted,
}
use pcut.TestRun.{Called, World, RunState}
use pcut.TestRun.Story.{Story, story, verdict}
use pcut.TestRun.Parent.{host, suite_fields}
use pcut.Main.Ends.{set_report, goes, Runner, RunMode, outcome_fail}
use pcut.Main.Members.{ComesBack, AllTests, with_items, suite_tests}
use pcut.Main.Loop.{run_all}
use pcut.Main.Whole.{whole, run_all-linked}
use pcut.Main.Stories.{HasFunction, told}
use pcut.Main.Tally.{CountsTests, tests_among-tests_run, whole-Tallied}

module _ {U : Type 0} (call : Func → U → Called U) (xs : List Addr) (h : Store) where
  pub told-CountsTests : CountsTests (told call xs) h (HasFunction xs h)
  told-CountsTests a w (i, (f, tf)) e =
      let st : Story U = story call (suite_fields h (host h none xs a)) f w.user in
      let r₁ = report_test_start (h a) w.report in
      let r₂ = print st.body.text r₁ in
      let r₃ = print st.teardown.text r₂ in
      let c₁ = report_test_start-Counted (h a) w.report e in
      let c₂ = print-Counted st.body.text r₁ c₁.handler in
      let c₃ = print-Counted st.teardown.text r₂ c₂.handler in
      let c₄ =
        report_test_done-Counted (h a) (verdict st) st.body.message st.teardown.message none r₃
          c₃.handler in
      rw tf (
        Counted-join c₁ (Counted-join c₂ (Counted-join c₃ c₄ refl refl) refl refl) (omega arith)
          (omega arith))

module _ {U : Type 0} (runner : Runner U) (mode : RunMode) (judge : Addr → World U → ℕ × World U)
    (h : Store) (Ready : RunState → U → Type 0) (Runs : Addr → Type 0)
    (back : ComesBack runner mode judge h Ready Runs) (counts : CountsTests judge h Runs) where
  -- A run with the TAP report, for any way to run a test that comes back and counts it.
  pub counted_run :
      (n : ℕ) (first : Addr) (xs : List Addr) (w : World U)
      → Chain h (some first) xs
      → AllTests h Runs xs
      → Ready w.run w.user
      → IsTap w.report
      → length xs ≤ n
      → suite_tests h xs ≡ []
      → (rc : ℕ) × ((v : World U) × (run_all runner mode n (some first) (with_items h w)
            ≡ goes rc v)
          × (v.report.tap.test_counter ≡ tests_among h xs)
          × (rc ≡ (if v.report.tap.failed_test_counter == 0 then 0 else outcome_fail))
          × ((rest : Bytes) × (v.report.out
                ≡ (w.report.out ++ (codes "1.." ++ (decimal (tests_among h xs) ++ codes "\n")))
                  ++ rest)))
  unfolding print
  counted_run n first xs w c ok ready e l none_before =
      let r = planned (tests_among h xs) w.report in
      let init = report_init-planned n h (some first) xs w.report e c l in
      let tally = whole-Tallied runner mode judge h Runs counts xs 0 (set_report w r) ok e in
      let end = whole runner mode judge h xs 0 (with_items h (set_report w r)) in
      let total =
        Counted-join tally.counted (report_done-Counted end.1.report tally.counted.handler) refl
          refl in
      let none_missed : length (suite_tests h xs) ≡ 0 = ap (λ ts. length ts) none_before in
      let failures : tally.failures ≡ (report_done end.1.report).tap.failed_test_counter =
        omega (arith, total.failed) in
      (
        end.0,
        (
          set_report end.1 (report_done end.1.report),
          run_all-linked runner mode judge h Ready Runs back n first xs w r c ok ready l init,
          omega (arith, total.tests, none_missed, tests_among-tests_run h xs),
          tally.code ∙ ap (λ n. if n == 0 then 0 else outcome_fail) failures,
          (total.printed, total.out),
        ),
      )
