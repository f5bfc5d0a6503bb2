-- ===== src/Report/Document.antt =====
-- src/report/tap.c: the whole text of a TAP report.
use pcut.Common.{
  ℕ, ◌+◌, ◌≡◌, refl, sym, ap, ◌∙◌, true, some, none, List, [], ◌∷◌, ◌++◌, Bytes, codes, decimal,
  arith, ◌==◌, Bool-cases, inl, inr, length, append-nil, append_assoc,
}
use pcut.Item.{Addr, Item, Store}
use pcut.Report.{report_done}
use pcut.Report.TapStyle.{tap_status-status_words, case_text, suite_end_text, end_text, tap_style}
use pcut.Report.Style.{
  Case, failures, case_report, cases_report, suite_report, cases_text, suite_text,
}
use pcut.Report.State.{Report, tap_handler, print}
use pcut.Report.Lines.{tap_print_by_lines, tagged, tap_print_by_lines-tagged}
use pcut.Report.Tap.{
  tap_status, tap_suite_start, tap_suite_done, tap_test_start, tap_test_done, tap_done,
}
use pcut.Report.Counted.{
  IsTap, fault, report_suite_start-tap, report_suite_done-tap, report_test_start-tap,
  report_test_done-tap, report_done-tap,
}

-- From `r` to `s` the TAP report has counted tests and failures, in all and of the suite, and printed
-- the text.
pub record Wrote (r s : Report) (n m i j : ℕ) (text : Bytes) : Type 0 where
  pub handler : s.report_ops ≡ some tap_handler
  pub tests : s.tap.test_counter ≡ n
  pub failed : s.tap.failed_test_counter ≡ m
  pub suite_tests : s.tap.tests_in_suite ≡ i
  pub suite_failed : s.tap.failed_tests_in_suite ≡ j
  pub out : s.out ≡ r.out ++ text

-- One text behind the other.
out_after : (a b c d : Bytes) → b ≡ a ++ c → b ++ d ≡ a ++ (c ++ d)
out_after a b c d e = ap (λ x. x ++ d) e ∙ append_assoc a c d

test_done-Wrote :
    (it : Item) (c : Case) (r : Report)
    → IsTap r
    → Wrote r
        (tap_test_done it c.outcome (some c.messages) none (some c.extra) (tap_test_start it r))
        (r.tap.test_counter + 1)
        (r.tap.failed_test_counter + fault c.outcome)
        (r.tap.tests_in_suite + 1)
        (r.tap.failed_tests_in_suite + fault c.outcome)
        (case_text it.name c (r.tap.test_counter + 1))
unfolding tap_test_done tap_test_start print
test_done-Wrote it c r e = record {
  handler = e;
  tests = elim (Bool-cases (c.outcome == 0)) [
    | inl z ↦ rw z (omega arith)
    | inr z ↦ rw z (omega arith)
  ];
  failed = elim (Bool-cases (c.outcome == 0)) [
    | inl z ↦ rw z (omega arith)
    | inr z ↦ rw z (omega arith)
  ];
  suite_tests = elim (Bool-cases (c.outcome == 0)) [
    | inl z ↦ rw z (omega arith)
    | inr z ↦ rw z (omega arith)
  ];
  suite_failed = elim (Bool-cases (c.outcome == 0)) [
    | inl z ↦ rw z (omega arith)
    | inr z ↦ rw z (omega arith)
  ];
  out =
      ap (λ x. r.out ++ (line ++ (x ++ tap_print_by_lines (some c.extra) (codes "# stdio: "))))
        (tap_print_by_lines-tagged (codes "# error: ") c.messages)
      ∙ ap (λ x. r.out ++ (line ++ (tagged (codes "# error: ") true c.messages ++ x)))
          (tap_print_by_lines-tagged (codes "# stdio: ") c.extra)
      ∙ ap (λ s. r.out ++ (line_of s ++ lines)) (tap_status-status_words c.outcome);
}
  where
    line_of : Bytes × Bytes → Bytes
    line_of s =
        s.0
        ++ (codes " "
            ++ (decimal (r.tap.test_counter + 1)
                ++ (codes " " ++ (it.name ++ (s.1 ++ codes "\n")))))

    line : Bytes
    line = line_of (tap_status c.outcome)

    lines : Bytes
    lines = tagged (codes "# error: ") true c.messages ++ tagged (codes "# stdio: ") true c.extra

module _ (h : Store) (told : Addr → Case) where
  case_report-Wrote :
      (a : Addr) (r : Report)
      → IsTap r
      → Wrote r
          (case_report h told a r)
          (r.tap.test_counter + 1)
          (r.tap.failed_test_counter + fault (told a).outcome)
          (r.tap.tests_in_suite + 1)
          (r.tap.failed_tests_in_suite + fault (told a).outcome)
          (case_text (h a).name (told a) (r.tap.test_counter + 1))
  unfolding tap_test_start
  case_report-Wrote a r e =
      let c = told a in
      rw
        (
          report_test_start-tap r e (h a),
          report_test_done-tap (tap_test_start (h a) r) e (h a) c.outcome (some c.messages) none
              (some c.extra),
        )
        (test_done-Wrote (h a) c r e)

  cases_report-Wrote :
      (ts : List Addr) (r : Report)
      → IsTap r
      → Wrote r
          (cases_report h told ts r)
          (r.tap.test_counter + length ts)
          (r.tap.failed_test_counter + failures told ts)
          (r.tap.tests_in_suite + length ts)
          (r.tap.failed_tests_in_suite + failures told ts)
          (cases_text h told tap_style r.tap.test_counter ts)
  cases_report-Wrote [] r e = record {
    handler = e;
    tests = omega arith;
    failed = omega arith;
    suite_tests = omega arith;
    suite_failed = omega arith;
    out = sym (append-nil r.out);
  }
  cases_report-Wrote (a ∷ ts) r e =
      let one = case_report-Wrote a r e in
      let rest = cases_report-Wrote ts (case_report h told a r) one.handler in
      record {
        handler = rest.handler;
        tests = omega (arith, one.tests, rest.tests);
        failed = omega (arith, one.failed, rest.failed);
        suite_tests = omega (arith, one.suite_tests, rest.suite_tests);
        suite_failed = omega (arith, one.suite_failed, rest.suite_failed);
        out =
            rest.out
            ∙ ap (λ k. (case_report h told a r).out ++ cases_text h told tap_style k ts) one.tests
            ∙ out_after r.out (case_report h told a r).out
                (case_text (h a).name (told a) (r.tap.test_counter + 1))
                (cases_text h told tap_style (r.tap.test_counter + 1) ts) one.out;
      }

-- The counters of the suite are left out.
pub record Spoke (r s : Report) (n m : ℕ) (text : Bytes) : Type 0 where
  pub handler : s.report_ops ≡ some tap_handler
  pub tests : s.tap.test_counter ≡ n
  pub failed : s.tap.failed_test_counter ≡ m
  pub out : s.out ≡ r.out ++ text

suite_done-Spoke :
    (it : Item) (r : Report)
    → IsTap r
    → Spoke r
        (tap_suite_done it r)
        r.tap.test_counter
        r.tap.failed_test_counter
        (suite_end_text it.name r.tap.failed_tests_in_suite r.tap.tests_in_suite)
unfolding tap_suite_done print
suite_done-Spoke it r e = elim (Bool-cases (r.tap.failed_tests_in_suite == 0)) [
  | inl z ↦ rw z (record { handler = e; tests = refl; failed = refl; out = refl })
  | inr z ↦ rw z (record { handler = e; tests = refl; failed = refl; out = refl })
]

pub report_done-Spoke :
    (r : Report)
    → IsTap r
    → Spoke r
        (report_done r)
        r.tap.test_counter
        r.tap.failed_test_counter
        (end_text r.tap.failed_test_counter r.tap.test_counter)
unfolding tap_done print
report_done-Spoke r e =
    rw (report_done-tap r e) (elim (Bool-cases (r.tap.failed_test_counter == 0)) [
      | inl z ↦ rw z (record { handler = e; tests = refl; failed = refl; out = refl })
      | inr z ↦ rw z (record { handler = e; tests = refl; failed = refl; out = refl })
    ])

module _ (h : Store) (told : Addr → Case) where
  pub suite_report-Spoke :
      (s : Addr) (ts : List Addr) (r : Report)
      → IsTap r
      → Spoke r
          (suite_report h told s ts r)
          (r.tap.test_counter + length ts)
          (r.tap.failed_test_counter + failures told ts)
          (suite_text h told tap_style r.tap.test_counter s ts)
  unfolding tap_suite_start print
  suite_report-Spoke s [] r e = record {
    handler = e;
    tests = omega arith;
    failed = omega arith;
    out = sym (append-nil r.out);
  }
  suite_report-Spoke s (t ∷ ts) r e =
      let name = (h s).name in
      let all = t ∷ ts in
      let first : Bytes = codes "#> Starting suite " ++ (name ++ codes ".\n") in
      let r₁ = tap_suite_start (h s) r in
      let r₂ = cases_report h told all r₁ in
      let run = cases_report-Wrote h told all r₁ e in
      let end = suite_done-Spoke (h s) r₂ run.handler in
      let told_failed : r₂.tap.failed_tests_in_suite ≡ failures told all =
        omega (arith, run.suite_failed) in
      let told_tests : r₂.tap.tests_in_suite ≡ length all = omega (arith, run.suite_tests) in
      let cases = cases_text h told tap_style r.tap.test_counter all in
      let last = suite_end_text name (failures told all) (length all) in
      rw (report_suite_start-tap r e (h s), report_suite_done-tap r₂ run.handler (h s))
        (record {
          handler = end.handler;
          tests = omega (arith, end.tests, run.tests);
          failed = omega (arith, end.failed, run.failed);
          out =
              end.out
              ∙ ap (λ n. r₂.out ++ suite_end_text name n r₂.tap.tests_in_suite) told_failed
              ∙ ap (λ n. r₂.out ++ suite_end_text name (failures told all) n) told_tests
              ∙ out_after r₁.out r₂.out cases last run.out
              ∙ append_assoc r.out first (cases ++ last);
        })
