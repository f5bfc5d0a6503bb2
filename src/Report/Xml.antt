-- ===== src/Report/Xml.antt =====
-- src/report/xml.c: the XML report.
use pcut.Common.{
  ℕ, ◌+◌, Option, some, ◌++◌, Bytes, codes, ◌==◌, if◌then◌else◌, Run, done, ◌>>=◌, decimal,
}
use pcut.Item.{Ptr, Item, Store}
use pcut.Items.{count_tests}
use pcut.Report.State.{Report, XmlCounters, print, ReportOps}
use pcut.Report.Lines.{xml_print_by_lines}

unfoldable pub xml_init : ℕ → Store → Ptr → Report → Run Report
unfolding print decimal
xml_init w h all_items r = do
  tests_total ← count_tests w h all_items
  done (
      print
        (codes "<?xml version=\"1.0\"?>\n"
          ++ (codes "<report tests-total=\"" ++ (decimal tests_total ++ codes "\">\n")))
        (record r { xml = record (r.xml) { test_counter = 0 } }))

unfoldable pub xml_suite_start : Item → Report → Report
unfolding print
xml_suite_start suite r =
    print (codes "\t<suite name=\"" ++ (suite.name ++ codes "\">\n"))
      (record r { xml = record (r.xml) { tests_in_suite = 0; failed_tests_in_suite = 0 } })

unfoldable pub xml_suite_done : Item → Report → Report
unfolding print decimal
xml_suite_done suite r =
    print
      (codes "\t</suite><!-- "
        ++ (suite.name
            ++ (codes ": "
                ++ (decimal r.xml.failed_tests_in_suite
                    ++ (codes " / " ++ (decimal r.xml.tests_in_suite ++ codes " -->\n"))))))
      r

unfoldable pub xml_test_start : Item → Report → Report
xml_test_start test r = record r {
  xml = record (r.xml) {
    tests_in_suite = r.xml.tests_in_suite + 1;
    test_counter = r.xml.test_counter + 1;
  };
}

-- the `switch` over the outcome
abbrev pub xml_status : ℕ → Bytes
xml_status outcome =
    if outcome == 0 then codes "pass" else if outcome == 1 then codes "fail" else codes "error"

unfoldable pub xml_test_done :
    Item → ℕ → Option Bytes → Option Bytes → Option Bytes → Report → Report
unfolding print xml_print_by_lines
xml_test_done test outcome error_message teardown_error_message extra_output r =
    let counted : XmlCounters =
      if outcome == 0
      then r.xml
      else record (r.xml) { failed_tests_in_suite = r.xml.failed_tests_in_suite + 1 } in
    let head =
      codes "\t\t<testcase name=\""
      ++ (test.name ++ (codes "\" status=\"" ++ (xml_status outcome ++ codes "\">\n"))) in
    print
      (head
        ++ (xml_print_by_lines error_message (codes "error-message")
            ++ (xml_print_by_lines teardown_error_message (codes "error-message")
                ++ (xml_print_by_lines extra_output (codes "standard-output")
                    ++ (codes "\t\t</testcase><!-- " ++ (test.name ++ codes " -->\n"))))))
      (record r { xml = counted })

unfoldable pub xml_done : Report → Report
unfolding print
xml_done r = print (codes "</report>\n") r

abbrev pub pcut_report_xml : ReportOps
pcut_report_xml = record {
  init = some xml_init;
  finish = some xml_done;
  suite_start = some xml_suite_start;
  suite_done = some xml_suite_done;
  test_start = some xml_test_start;
  test_done = some xml_test_done;
}
