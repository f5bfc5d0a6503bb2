-- ===== src/Report/XmlDocument.antt =====
-- src/report/xml.c: the whole text of an XML report.
use pcut.Common.{
  ℕ, zero, suc, ◌+◌, ◌≡◌, refl, sym, ap, ◌∙◌, some, none, List, [], ◌∷◌, ◌++◌, Bytes, codes,
  decimal, arith, ◌==◌, Option, Bool-cases, inl, inr, length, append-nil, append_assoc,
}
use pcut.Item.{Addr, Item, Store}
use pcut.Report.{
  report_suite_start, report_suite_done, report_test_start, report_test_done, report_done,
}
use pcut.Report.Style.{
  Case, Style, failures, case_report, cases_report, suite_report, cases_text, suite_text,
}
use pcut.Report.State.{Report, xml_handler, print}
use pcut.Report.Lines.{xml_print_by_lines, element, xml_print_by_lines-element}
use pcut.Report.Xml.{
  xml_status, xml_suite_start, xml_suite_done, xml_test_start, xml_test_done, xml_done,
}
use pcut.Report.Counted.{fault}

abbrev status_word : ℕ → Bytes
status_word zero = codes "pass"
status_word (suc zero) = codes "fail"
status_word (suc (suc n)) = codes "error"

xml_status-status_word : (outcome : ℕ) → xml_status outcome ≡ status_word outcome
xml_status-status_word zero = refl
xml_status-status_word (suc zero) = refl
xml_status-status_word (suc (suc n)) = ground arith

abbrev case_text : Bytes → Case → ℕ → Bytes
case_text name c k =
    (codes "\t\t<testcase name=\""
      ++ (name ++ (codes "\" status=\"" ++ (status_word c.outcome ++ codes "\">\n"))))
    ++ (element (codes "error-message") c.messages
        ++ (element (codes "standard-output") c.extra
            ++ (codes "\t\t</testcase><!-- " ++ (name ++ codes " -->\n"))))

-- Names, messages and output stand in the text as they are. The tests are not numbered, and failures are
-- counted in comments alone.
abbrev pub xml_style : Style
xml_style = record {
  plan = λ all.
      codes "<?xml version=\"1.0\"?>\n"
      ++ (codes "<report tests-total=\"" ++ (decimal all ++ codes "\">\n"));
  suite_start = λ name. codes "\t<suite name=\"" ++ (name ++ codes "\">\n");
  case_text = case_text;
  suite_end = λ name failed all.
      codes "\t</suite><!-- "
      ++ (name
          ++ (codes ": " ++ (decimal failed ++ (codes " / " ++ (decimal all ++ codes " -->\n")))));
  summary = λ failed all. codes "</report>\n";
}

abbrev pub IsXml : Report → Type 0
IsXml r = r.report_ops ≡ some xml_handler

-- The calls that the XML report gets.
module _ (r : Report) (e : IsXml r) where
  report_suite_start-xml : (suite : Item) → report_suite_start suite r ≡ xml_suite_start suite r
  unfolding report_suite_start
  report_suite_start-xml suite = rw (e, report_suite_start) refl

  report_suite_done-xml : (suite : Item) → report_suite_done suite r ≡ xml_suite_done suite r
  unfolding report_suite_done
  report_suite_done-xml suite = rw (e, report_suite_done) refl

  report_test_start-xml : (test : Item) → report_test_start test r ≡ xml_test_start test r
  unfolding report_test_start
  report_test_start-xml test = rw (e, report_test_start) refl

  report_test_done-xml :
      (test : Item) (outcome : ℕ) (m t x : Option Bytes)
      → report_test_done test outcome m t x r ≡ xml_test_done test outcome m t x r
  unfolding report_test_done
  report_test_done-xml test outcome m t x = rw (e, report_test_done) refl

  report_done-xml : report_done r ≡ xml_done r
  unfolding report_done
  report_done-xml = rw (e, report_done) refl

-- From `r` to `s` the XML report has counted tests and failures of the suite, and printed the text.
record Wrote (r s : Report) (i j : ℕ) (text : Bytes) : Type 0 where
  handler : s.report_ops ≡ some xml_handler
  suite_tests : s.xml.tests_in_suite ≡ i
  suite_failed : s.xml.failed_tests_in_suite ≡ j
  out : s.out ≡ r.out ++ text

-- The counters are left out.
pub record Spoke (r s : Report) (text : Bytes) : Type 0 where
  pub handler : s.report_ops ≡ some xml_handler
  pub out : s.out ≡ r.out ++ text

test_done-Wrote :
    (it : Item) (c : Case) (r : Report) (k : ℕ)
    → IsXml r
    → Wrote r
        (xml_test_done it c.outcome (some c.messages) none (some c.extra) (xml_test_start it r))
        (r.xml.tests_in_suite + 1)
        (r.xml.failed_tests_in_suite + fault c.outcome)
        (case_text it.name c k)
unfolding xml_test_done xml_test_start xml_print_by_lines print
test_done-Wrote it c r k e = record {
  handler = e;
  suite_tests = elim (Bool-cases (c.outcome == 0)) [ inl z ↦ rw z refl | inr z ↦ rw z refl ];
  suite_failed = elim (Bool-cases (c.outcome == 0)) [
    | inl z ↦ rw z (omega arith)
    | inr z ↦ rw z refl
  ];
  out =
      ap (λ x. r.out ++ (head ++ (x ++ (xml_print_by_lines (some c.extra) output ++ foot))))
        (xml_print_by_lines-element (codes "error-message") c.messages)
      ∙ ap (λ x. r.out ++ (head ++ (element (codes "error-message") c.messages ++ (x ++ foot))))
          (xml_print_by_lines-element output c.extra)
      ∙ ap (λ word. r.out ++ (opening word ++ elements)) (xml_status-status_word c.outcome);
}
  where
    output : Bytes
    output = codes "standard-output"

    opening : Bytes → Bytes
    opening word =
        codes "\t\t<testcase name=\""
        ++ (it.name ++ (codes "\" status=\"" ++ (word ++ codes "\">\n")))

    head : Bytes
    head = opening (xml_status c.outcome)

    foot : Bytes
    foot = codes "\t\t</testcase><!-- " ++ (it.name ++ codes " -->\n")

    elements : Bytes
    elements = element (codes "error-message") c.messages ++ (element output c.extra ++ foot)

pub report_done-Spoke : (r : Report) → IsXml r → Spoke r (report_done r) (codes "</report>\n")
unfolding xml_done print
report_done-Spoke r e = rw (report_done-xml r e) (record { handler = e; out = refl })

module _ (h : Store) (told : Addr → Case) where
  case_report-Wrote :
      (a : Addr) (r : Report) (k : ℕ)
      → IsXml r
      → Wrote r
          (case_report h told a r)
          (r.xml.tests_in_suite + 1)
          (r.xml.failed_tests_in_suite + fault (told a).outcome)
          (case_text (h a).name (told a) k)
  unfolding xml_test_start
  case_report-Wrote a r k e =
      let c = told a in
      rw
        (
          report_test_start-xml r e (h a),
          report_test_done-xml (xml_test_start (h a) r) e (h a) c.outcome (some c.messages) none
              (some c.extra),
        )
        (test_done-Wrote (h a) c r k e)

  cases_report-Wrote :
      (ts : List Addr) (r : Report) (k : ℕ)
      → IsXml r
      → Wrote r
          (cases_report h told ts r)
          (r.xml.tests_in_suite + length ts)
          (r.xml.failed_tests_in_suite + failures told ts)
          (cases_text h told xml_style k ts)
  cases_report-Wrote [] r k e = record {
    handler = e;
    suite_tests = omega arith;
    suite_failed = omega arith;
    out = sym (append-nil r.out);
  }
  cases_report-Wrote (a ∷ ts) r k e =
      let one = case_report-Wrote a r (k + 1) e in
      let rest = cases_report-Wrote ts (case_report h told a r) (k + 1) one.handler in
      let later = cases_text h told xml_style (k + 1) ts in
      record {
        handler = rest.handler;
        suite_tests = omega (arith, one.suite_tests, rest.suite_tests);
        suite_failed = omega (arith, one.suite_failed, rest.suite_failed);
        out =
            rest.out
            ∙ ap (λ t. t ++ later) one.out
            ∙ append_assoc r.out (case_text (h a).name (told a) (k + 1)) later;
      }

  pub suite_report-Spoke :
      (s : Addr) (ts : List Addr) (r : Report) (k : ℕ)
      → IsXml r
      → Spoke r (suite_report h told s ts r) (suite_text h told xml_style k s ts)
  unfolding xml_suite_start xml_suite_done print
  suite_report-Spoke s [] r k e = record { handler = e; out = sym (append-nil r.out) }
  suite_report-Spoke s (t ∷ ts) r k e =
      let name = (h s).name in
      let all = t ∷ ts in
      let r₁ = xml_suite_start (h s) r in
      let r₂ = cases_report h told all r₁ in
      let run = cases_report-Wrote all r₁ k e in
      let cases = cases_text h told xml_style k all in
      let first = xml_style.suite_start name in
      let last = xml_style.suite_end name (failures told all) (length all) in
      let told_failed : r₂.xml.failed_tests_in_suite ≡ failures told all =
        omega (arith, run.suite_failed) in
      let told_tests : r₂.xml.tests_in_suite ≡ length all = omega (arith, run.suite_tests) in
      rw (report_suite_start-xml r e (h s), report_suite_done-xml r₂ run.handler (h s))
        (record {
          handler = run.handler;
          out =
              ap (λ n. r₂.out ++ xml_style.suite_end name n r₂.xml.tests_in_suite) told_failed
              ∙ ap (λ n. r₂.out ++ xml_style.suite_end name (failures told all) n) told_tests
              ∙ ap (λ x. x ++ last) run.out
              ∙ append_assoc r₁.out cases last
              ∙ append_assoc r.out first (cases ++ last);
        })
