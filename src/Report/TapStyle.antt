-- ===== src/Report/TapStyle.antt =====
-- src/report/tap.c: the parts of the text of a TAP report.
use pcut.Common.{
  ℕ, zero, suc, ◌≡◌, refl, [], arith, true, ◌++◌, Bytes, codes, decimal, ◌==◌, if◌then◌else◌,
}
use pcut.Report.Style.{Case, Style}
use pcut.Report.Lines.{tagged}
use pcut.Report.Tap.{tap_status}

-- What stands before the number of a test and behind its name.
abbrev pub status_words : ℕ → Bytes × Bytes
status_words zero = (codes "ok", [])
status_words (suc zero) = (codes "not ok", codes " failed")
status_words (suc (suc n)) = (codes "not ok", codes " aborted")

pub tap_status-status_words : (outcome : ℕ) → tap_status outcome ≡ status_words outcome
tap_status-status_words zero = refl
tap_status-status_words (suc zero) = refl
tap_status-status_words (suc (suc n)) = ground arith

abbrev pub case_text : Bytes → Case → ℕ → Bytes
case_text name c k =
    ((status_words c.outcome).0
      ++ (codes " "
          ++ (decimal k ++ (codes " " ++ (name ++ ((status_words c.outcome).1 ++ codes "\n"))))))
    ++ (tagged (codes "# error: ") true c.messages ++ tagged (codes "# stdio: ") true c.extra)

abbrev pub suite_end_text : Bytes → ℕ → ℕ → Bytes
suite_end_text name failed all =
    if failed == 0
    then codes "#> Finished suite " ++ (name ++ codes " (passed).\n")
    else codes "#> Finished suite "
      ++ (name
          ++ (codes " (failed "
              ++ (decimal failed ++ (codes " of " ++ (decimal all ++ codes ").\n")))))

abbrev pub end_text : ℕ → ℕ → Bytes
end_text failed all =
    if failed == 0
    then codes "#> Done: all tests passed.\n"
    else codes "#> Done: "
      ++ (decimal failed ++ (codes " of " ++ (decimal all ++ codes " tests failed.\n")))

-- A test has its number and its name, its messages and its output line by line.
abbrev pub tap_style : Style
tap_style = record {
  plan = λ all. codes "1.." ++ (decimal all ++ codes "\n");
  suite_start = λ name. codes "#> Starting suite " ++ (name ++ codes ".\n");
  case_text = case_text;
  suite_end = suite_end_text;
  summary = end_text;
}
