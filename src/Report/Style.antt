-- ===== src/Report/Style.antt =====
-- src/report/report.c: what the program tells a report, and the text of a report by its parts.
use pcut.Common.{ℕ, ◌+◌, some, none, List, [], ◌∷◌, ◌++◌, Bytes, length}
use pcut.Item.{Addr, Store}
use pcut.Report.{report_suite_start, report_suite_done, report_test_start, report_test_done}
use pcut.Report.State.{Report}
use pcut.Report.Counted.{fault}

-- What a report is told of a test in a process of its own.
pub record Case : Type 0 where
  pub outcome : ℕ
  pub messages : Bytes
  pub extra : Bytes

-- How many of the tests fail.
abbrev pub failures : (Addr → Case) → List Addr → ℕ
failures told [] = 0
failures told (a ∷ ts) = fault (told a).outcome + failures told ts

-- The parts of a text: before all suites, by the number of tests; the start of a suite, by its name; a
-- test, by its name and its number; the end of a suite, by its name, its failures and its tests; and
-- behind all suites, by the failures and the tests.
pub record Style : Type 0 where
  pub plan : ℕ → Bytes
  pub suite_start : Bytes → Bytes
  pub case_text : Bytes → Case → ℕ → Bytes
  pub suite_end : Bytes → ℕ → ℕ → Bytes
  pub summary : ℕ → ℕ → Bytes

module _ (h : Store) (told : Addr → Case) where
  -- The calls for tests and for a suite.
  abbrev pub case_report : Addr → Report → Report
  case_report a r =
      report_test_done (h a) (told a).outcome (some (told a).messages) none (some (told a).extra)
        (report_test_start (h a) r)

  abbrev pub cases_report : List Addr → Report → Report
  cases_report [] r = r
  cases_report (a ∷ ts) r = cases_report ts (case_report a r)

  abbrev pub suite_report : Addr → List Addr → Report → Report
  suite_report s [] r = r
  suite_report s (t ∷ ts) r =
      report_suite_done (h s) (cases_report (t ∷ ts) (report_suite_start (h s) r))

  -- Their texts; `k` tests are counted before.
  abbrev pub cases_text : Style → ℕ → List Addr → Bytes
  cases_text style k [] = []
  cases_text style k (a ∷ ts) =
      style.case_text (h a).name (told a) (k + 1) ++ cases_text style (k + 1) ts

  abbrev pub suite_text : Style → ℕ → Addr → List Addr → Bytes
  suite_text style k s [] = []
  suite_text style k s (t ∷ ts) =
      style.suite_start (h s).name
      ++ (cases_text style k (t ∷ ts)
          ++ style.suite_end (h s).name (failures told (t ∷ ts)) (length (t ∷ ts)))
