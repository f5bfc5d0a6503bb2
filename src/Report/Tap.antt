-- ===== src/Report/Tap.antt =====
-- src/report/tap.c: the Test-Anything-Protocol report.
use pcut.Common.{
  ℕ, ◌+◌, Option, some, [], ◌++◌, Bytes, codes, ◌==◌, if◌then◌else◌, Run, done, ◌>>=◌, decimal,
}
use pcut.Item.{Ptr, Item, Store}
use pcut.Items.{count_tests}
use pcut.Report.State.{Report, TapCounters, print, ReportOps}
use pcut.Report.Lines.{tap_print_by_lines}

unfoldable pub tap_init : ℕ → Store → Ptr → Report → Run Report
unfolding print decimal
tap_init w h all_items r = do
  tests_total ← count_tests w h all_items
  done (
      print (codes "1.." ++ (decimal tests_total ++ codes "\n"))
        (record r { tap = record (r.tap) { test_counter = 0; failed_test_counter = 0 } }))

unfoldable pub tap_suite_start : Item → Report → Report
unfolding print
tap_suite_start suite r =
    print (codes "#> Starting suite " ++ (suite.name ++ codes ".\n"))
      (record r { tap = record (r.tap) { tests_in_suite = 0; failed_tests_in_suite = 0 } })

unfoldable pub tap_suite_done : Item → Report → Report
unfolding print decimal
tap_suite_done suite r =
    if r.tap.failed_tests_in_suite == 0
    then print (codes "#> Finished suite " ++ (suite.name ++ codes " (passed).\n")) r
    else print
        (codes "#> Finished suite "
          ++ (suite.name
              ++ (codes " (failed "
                  ++ (decimal r.tap.failed_tests_in_suite
                      ++ (codes " of " ++ (decimal r.tap.tests_in_suite ++ codes ").\n"))))))
        r

unfoldable pub tap_test_start : Item → Report → Report
tap_test_start test r = record r {
  tap = record (r.tap) {
    tests_in_suite = r.tap.tests_in_suite + 1;
    test_counter = r.tap.test_counter + 1;
  };
}

-- the `switch` over the outcome
abbrev pub tap_status : ℕ → Bytes × Bytes
tap_status outcome =
    if outcome == 0
    then (codes "ok", [])
    else if outcome == 1
    then (codes "not ok", codes " failed")
    else (codes "not ok", codes " aborted")

unfoldable pub tap_test_done :
    Item → ℕ → Option Bytes → Option Bytes → Option Bytes → Report → Report
unfolding print decimal tap_print_by_lines
tap_test_done test outcome error_message teardown_error_message extra_output r =
    let counted : TapCounters = if outcome == 0 then r.tap else record (r.tap) {
      failed_tests_in_suite = r.tap.failed_tests_in_suite + 1;
      failed_test_counter = r.tap.failed_test_counter + 1;
    } in
    let line =
      (tap_status outcome).0
      ++ (codes " "
          ++ (decimal r.tap.test_counter
              ++ (codes " " ++ (test.name ++ ((tap_status outcome).1 ++ codes "\n"))))) in
    print
      (line
        ++ (tap_print_by_lines error_message (codes "# error: ")
            ++ (tap_print_by_lines teardown_error_message (codes "# error: ")
                ++ tap_print_by_lines extra_output (codes "# stdio: "))))
      (record r { tap = counted })

unfoldable pub tap_done : Report → Report
unfolding print decimal
tap_done r =
    if r.tap.failed_test_counter == 0
    then print (codes "#> Done: all tests passed.\n") r
    else print
        (codes "#> Done: "
          ++ (decimal r.tap.failed_test_counter
              ++ (codes " of " ++ (decimal r.tap.test_counter ++ codes " tests failed.\n"))))
        r

abbrev pub pcut_report_tap : ReportOps
pcut_report_tap = record {
  init = some tap_init;
  finish = some tap_done;
  suite_start = some tap_suite_start;
  suite_done = some tap_suite_done;
  test_start = some tap_test_start;
  test_done = some tap_test_done;
}
