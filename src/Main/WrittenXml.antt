-- ===== src/Main/WrittenXml.antt =====
-- src/main.c with src/report/xml.c: the whole text that a run of all tests reports as XML.
use pcut.Common.{
  ℕ, ◌+◌, ◌≡◌, sym, ap, ◌∙◌, List, [], ◌∷◌, ◌++◌, length, Bool-cases, inl, inr, append-nil,
  append_assoc,
}
use pcut.Item.{Addr, Store, is_testsuite}
use pcut.Report.{report_done}
use pcut.Report.State.{Report, print}
use pcut.Report.Counted.{opened}
use pcut.Report.Style.{Case, suite_report, suite_text}
use pcut.Report.XmlDocument.{xml_style, IsXml, Spoke, suite_report-Spoke, report_done-Spoke}
use pcut.Main.Members.{suite_tests}
use pcut.Main.Written.{suites_report, suites_text, document}

module _ (h : Store) (told : Addr → Case) where
  suites_report-Spoke :
      (xs : List Addr) (r : Report) (k : ℕ)
      → IsXml r
      → Spoke r (suites_report h told xs r) (suites_text h told xml_style k xs)
  suites_report-Spoke [] r k e = record { handler = e; out = sym (append-nil r.out) }
  suites_report-Spoke (a ∷ xs) r k e =
      let ts = suite_tests h xs in
      let r₁ = suite_report h told a ts r in
      let one = suite_report-Spoke h told a ts r k e in
      let later = suites_text h told xml_style (k + length ts) xs in
      let rest = suites_report-Spoke xs r₁ (k + length ts) one.handler in
      elim (Bool-cases (is_testsuite (h a).kind)) [
        | inl s ↦ rw s (record {
          handler = rest.handler;
          out =
              rest.out
              ∙ ap (λ t. t ++ later) one.out
              ∙ append_assoc r.out (suite_text h told xml_style k a ts) later;
        })
        | inr s ↦ rw s (suites_report-Spoke xs r (k + 0) e)
      ]

  pub opened-document :
      (xs : List Addr) (r v : Report) (n m : ℕ)
      → IsXml r
      → v ≡ report_done (suites_report h told xs (opened n r))
      → v.out ≡ r.out ++ document h told xml_style n m xs
  unfolding print
  opened-document xs r v n m e written =
      let plan = xml_style.plan n in
      let text = suites_text h told xml_style 0 xs in
      let end = xml_style.summary m n in
      let s = suites_report h told xs (opened n r) in
      let suites = suites_report-Spoke xs (opened n r) 0 e in
      ap (λ (x : Report). x.out) written
      ∙ (report_done-Spoke s suites.handler).out
      ∙ ap (λ t. t ++ end) suites.out
      ∙ append_assoc (r.out ++ plan) text end
      ∙ append_assoc r.out plan (text ++ end)
