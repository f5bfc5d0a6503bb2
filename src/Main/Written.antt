-- ===== src/Main/Written.antt =====
-- src/main.c with src/report/tap.c: the whole text that a run of all tests reports.
use pcut.Common.{
  ℕ, ◌+◌, ◌≡◌, refl, sym, ap, ◌∙◌, List, [], ◌∷◌, ◌++◌, Bytes, arith, length, Bool-cases, inl, inr,
  if◌then◌else◌, append-nil, append_assoc, ◌==◌,
}
use pcut.Item.{Addr, Store, is_testsuite}
use pcut.Report.{report_suite_start, report_suite_done, report_done}
use pcut.Report.State.{Report, print}
use pcut.Report.Counted.{IsTap, fault, planned}
use pcut.Report.Style.{Case, Style, failures, case_report, cases_report, suite_report, suite_text}
use pcut.Report.TapStyle.{tap_style}
use pcut.Report.Document.{Spoke, suite_report-Spoke, report_done-Spoke}
use pcut.TestRun.{World, RunState}
use pcut.Main.Ends.{Runner, RunMode, set_report, outcome_fail}
use pcut.Main.Members.{ComesBack, with_items, suite_tests, All, AllTests, suite_tests-All}
use pcut.Main.Judged.{judged, suite_result}
use pcut.Main.Whole.{whole, judged-store, suite_result-Ready}
use pcut.Main.Tally.{tests_run}
use pcut.Main.Verdicts.{failing, failing_run}

module _ (h : Store) (told : Addr → Case) where
  abbrev pub suites_report : List Addr → Report → Report
  suites_report [] r = r
  suites_report (a ∷ xs) r =
      suites_report xs
        (if is_testsuite (h a).kind then suite_report h told a (suite_tests h xs) r else r)

  -- The suites in their order; `k` tests are counted before.
  abbrev pub suites_text : Style → ℕ → List Addr → Bytes
  suites_text style k [] = []
  suites_text style k (a ∷ xs) =
      let ts = suite_tests h xs in
      (if is_testsuite (h a).kind then suite_text h told style k a ts else [])
      ++ suites_text style (k + (if is_testsuite (h a).kind then length ts else 0)) xs

  abbrev outcomes : Addr → ℕ
  outcomes a = (told a).outcome

  failures-failing : (ts : List Addr) → failures told ts ≡ failing outcomes ts
  failures-failing [] = refl
  failures-failing (a ∷ ts) = ap (λ n. fault (told a).outcome + n) (failures-failing ts)

  pub suites_report-Spoke :
      (xs : List Addr) (r : Report)
      → IsTap r
      → Spoke r
          (suites_report xs r)
          (r.tap.test_counter + tests_run h xs)
          (r.tap.failed_test_counter + failing_run h outcomes xs)
          (suites_text tap_style r.tap.test_counter xs)
  suites_report-Spoke [] r e = record {
    handler = e;
    tests = omega arith;
    failed = omega arith;
    out = sym (append-nil r.out);
  }
  suites_report-Spoke (a ∷ xs) r e =
      let ts = suite_tests h xs in
      let k = r.tap.test_counter in
      let r₁ = suite_report h told a ts r in
      let one = suite_report-Spoke h told a ts r e in
      let rest = suites_report-Spoke xs r₁ one.handler in
      let other = suites_report-Spoke xs r e in
      let same : k + 0 ≡ k = omega arith in
      elim (Bool-cases (is_testsuite (h a).kind)) [
        | inl s ↦ rw s (record {
          handler = rest.handler;
          tests = omega (arith, one.tests, rest.tests);
          failed = omega (arith, one.failed, rest.failed, failures-failing ts);
          out =
              rest.out
              ∙ ap (λ n. r₁.out ++ suites_text tap_style n xs) one.tests
              ∙ ap (λ t. t ++ suites_text tap_style (k + length ts) xs) one.out
              ∙ append_assoc r.out (suite_text h told tap_style k a ts)
                  (suites_text tap_style (k + length ts) xs);
        })
        | inr s ↦ rw (s, same) other
      ]

  -- The plan for `all` tests, the suites with their tests, and the summary.
  abbrev pub document : Style → ℕ → ℕ → List Addr → Bytes
  document style all failed xs =
      style.plan all ++ (suites_text style 0 xs ++ style.summary failed all)

  pub planned-document :
      (xs : List Addr) (r v : Report) (n m : ℕ)
      → IsTap r
      → v ≡ report_done (suites_report xs (planned n r))
      → tests_run h xs ≡ n
      → failing_run h outcomes xs ≡ m
      → Spoke r v n m (document tap_style n m xs)
  unfolding print
  planned-document xs r v n m e written all failed =
      let plan = tap_style.plan n in
      let text = suites_text tap_style 0 xs in
      let end = tap_style.summary in
      let s = suites_report xs (planned n r) in
      let suites = suites_report-Spoke xs (planned n r) e in
      let ended = report_done-Spoke s suites.handler in
      let same_all : s.tap.test_counter ≡ n = omega (arith, suites.tests, all) in
      let same_failed : s.tap.failed_test_counter ≡ m = omega (arith, suites.failed, failed) in
      record {
        handler = ap (λ (x : Report). x.report_ops) written ∙ ended.handler;
        tests = ap (λ (x : Report). x.tap.test_counter) written ∙ ended.tests ∙ same_all;
        failed =
            ap (λ (x : Report). x.tap.failed_test_counter) written ∙ ended.failed ∙ same_failed;
        out =
            ap (λ (x : Report). x.out) written
            ∙ ended.out
            ∙ ap (λ k. s.out ++ end s.tap.failed_test_counter k) same_all
            ∙ ap (λ k. s.out ++ end k n) same_failed
            ∙ ap (λ t. t ++ end m n) suites.out
            ∙ append_assoc (r.out ++ plan) text (end m n)
            ∙ append_assoc r.out plan (text ++ end m n);
      }

module _ {U : Type 0} (runner : Runner U) (mode : RunMode) (judge : Addr → World U → ℕ × World U)
    (h : Store) (Ready : RunState → U → Type 0) (Runs : Addr → Type 0)
    (back : ComesBack runner mode judge h Ready Runs) (told : Addr → Case)
    (reports : (a : Addr) (w : World U)
      → Runs a
      → Ready w.run w.user
      → (judge a (with_items h w)).1.report ≡ case_report h told a w.report) where
  judged-cases_report :
      (ts : List Addr) (rc : ℕ) (w : World U)
      → All Runs ts
      → Ready w.run w.user
      → (judged runner mode judge ts rc (with_items h w)).1.report ≡ cases_report h told ts w.report
  judged-cases_report [] rc w ok ready = refl
  judged-cases_report (a ∷ ts) rc w ok ready =
      let j = judge a (with_items h w) in
      judged-cases_report ts (if j.0 == 0 then rc else outcome_fail) j.1 ok.1
        (back a w ok.0 ready).1
      ∙ ap (cases_report h told ts) (reports a w ok.0 ready)

  pub suite_result-suite_report :
      (suite : Addr) (ts : List Addr) (w : World U)
      → All Runs ts
      → Ready w.run w.user
      → (suite_result runner mode judge suite ts (with_items h w)).1.report
        ≡ suite_report h told suite ts w.report
  suite_result-suite_report suite [] w ok ready = refl
  suite_result-suite_report suite (t ∷ ts) w ok ready =
      let v = set_report w (report_suite_start (h suite) w.report) in
      let end = (judged runner mode judge (t ∷ ts) 0 (with_items h v)).1 in
      ap (λ x. report_suite_done (x suite) end.report)
        (judged-store runner mode judge (t ∷ ts) 0 (with_items h v))
      ∙ ap (report_suite_done (h suite)) (judged-cases_report (t ∷ ts) 0 v ok ready)

  pub whole-suites_report :
      (xs : List Addr) (rc : ℕ) (w : World U)
      → AllTests h Runs xs
      → Ready w.run w.user
      → (whole runner mode judge h xs rc (with_items h w)).1.report
        ≡ suites_report h told xs w.report
  whole-suites_report [] rc w ok ready = refl
  whole-suites_report (a ∷ xs) rc w ok ready =
      let ts = suite_tests h xs in
      let here = suite_tests-All h Runs xs ok.1 in
      let r = suite_result runner mode judge a ts (with_items h w) in
      elim (Bool-cases (is_testsuite (h a).kind)) [
        | inl s ↦ rw s (
            whole-suites_report xs (if r.0 == 0 then rc else r.0) r.1 ok.1
              (suite_result-Ready runner mode judge h Ready Runs back a ts w here ready)
            ∙ ap (suites_report h told xs) (suite_result-suite_report a ts w here ready))
        | inr s ↦ rw s (whole-suites_report xs rc w ok.1 ready)
      ]
