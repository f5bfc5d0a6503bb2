-- ===== src/Main/StaticXml.antt =====
-- The whole of src/list.c, src/main.c, src/os/unix.c, src/run.c and src/report/xml.c: a program that is
-- started with the XML report.
use pcut.Common.{
  ℕ, suc, ◌≤◌, ◌<◌, ◌≡◌, refl, ap, ◌∙◌, some, none, List, [], ◌∷◌, ◌++◌, Bytes, length, AllDistinct,
  ◌==◌, done, codes, if◌then◌else◌,
}
use pcut.Item.{Addr, Func, Store}
use pcut.Items.Walk.{tests_among}
use pcut.Items.Tree.{Entries, IsFile, file, first_addr, depths}
use pcut.Macros.{main_extra_set_last}
use pcut.Report.State.{xml_handler}
use pcut.Report.Counted.{opened, report_init-opened}
use pcut.Report.XmlDocument.{xml_style}
use pcut.Main.WrittenXml.{opened-document}
use pcut.TestRun.{Called, World}
use pcut.Main.{pcut_main}
use pcut.Main.Ends.{goes, Runner, outcome_fail}
use pcut.Main.Members.{AllTests, suite_tests}
use pcut.Main.Program.{shown_items}
use pcut.Forking.Process.{Machine, Works}
use pcut.Main.Forks.{in_forks, FitsHere}
use pcut.Main.Verdicts.{failing_among}
use pcut.Main.Cases.{case_of, verdict_of}
use pcut.Report.Style.{Case}
use pcut.Main.Written.{document}
use pcut.Main.Prepared.{file-Prepared}
use pcut.Main.Declared.{declared}
use pcut.Main.Plain.{started, pcut_main-run_all_xml}
use pcut.Main.Ran.{total, document-source, source_run}

module _ (machines : Addr → Machine) {U : Type 0} (call : Func → U → Called U)
    (preinit_hook : Func → List Bytes → U → List Bytes × U) (init_hook : Func → U → U)
    (run_here : Runner U) (works : (a : Addr) → Works (machines a)) (d k : ℕ) (es : Entries)
    (z : Addr) (name : Bytes) (w : World U) where
  abbrev before : Store
  before = w.store

  -- The items of the program in the order of the source, as they are declared.
  abbrev items : List Addr
  items = file es z

  abbrev source : Store
  source = declared (shown_items before) items

  -- What the report is told of each test, and whether it fails.
  abbrev cases : Addr → Case
  cases = case_of call source items w.user

  abbrev verdicts : Addr → ℕ
  verdicts = verdict_of call source items w.user

  -- A program that is started with the argument `-x` runs all its tests, each in a process of its
  -- own on Unix, and comes back with a pass exactly when no test fails, and else with a failure.
  -- The XML report prints nothing else than the number of tests that are not marked to be skipped,
  -- for each suite with tests an element with its name, with one element for each of its tests
  -- with its name and status, its messages and its output, each ended by a newline, and at the end
  -- of the suite a comment with its failures and tests. No name, message or output is escaped. A
  -- test fails when its story in its suite does, where the functions of a suite are the last that
  -- the source declares before the next suite, or its own when there are none. The conditions are
  -- that the items are laid out as the macros do it at different addresses, without hooks or a
  -- choice of the report, that the fuel covers the nesting of the imports and the number of the
  -- items, that no test stands before the first suite, that no message is left from before, that
  -- each test has a function and a story that holds no NUL and fits the buffers, and that the
  -- system makes pipes and processes, delivers what is written to the standard output, no read
  -- coming back empty before the end, tells the exit code, and has nothing on the standard error.
  pub pcut_main-xml_document :
      IsFile before es z
      → AllDistinct items
      → depths es < d
      → length items ≤ suc (suc k)
      → (before z).main_extras ≡ some (main_extra_set_last ∷ [])
      → AllTests source (FitsHere machines call items source w.user) items
      → w.run.prev_message ≡ none
      → suite_tests source items ≡ []
      → (v : World U) × (pcut_main
            (in_forks machines call (suc (suc k)))
            preinit_hook
            init_hook
            run_here
            d
            (suc (suc k))
            z
            (name ∷ codes "-x" ∷ [])
            w
          ≡ goes (if failing_among source verdicts items == 0 then 0 else outcome_fail) v)
        × (v.report.out
            ≡ w.report.out
              ++ document source cases xml_style
                  (tests_among source items)
                  (failing_among source verdicts items)
                  items)
  pcut_main-xml_document f ds dp l extras ok m none_before =
      let n = suc (suc k) in
      let (h, p) = file-Prepared n d before es z f ds dp l in
      let begun = started xml_handler h w in
      let all = tests_among source items in
      let bad = failing_among source verdicts items in
      let init =
        report_init-opened n h (some (first_addr es z)) items w.report p.chain l
        ∙ ap (λ t. done (opened t begun.report)) (total machines call works d k es z w h p) in
      let (v, runs, written) =
        source_run machines call works d k es z w h p none_before begun.report
          (opened all begun.report) l ok m init in
      (
        v,
        pcut_main-run_all_xml (in_forks machines call n) preinit_hook init_hook run_here d n z
              (first_addr es z) name p.list h w p.flattens (p.main_extras ∙ extras) p.collects
            ∙ runs,
        opened-document h (case_of call h items w.user) items begun.report v.report all bad refl
              written
            ∙ ap (λ t. w.report.out ++ t)
                (document-source machines call works d k es z w h p xml_style all bad),
      )
