-- ===== src/Main/Static.antt =====
-- The whole of src/list.c, src/main.c, src/os/unix.c, src/run.c and src/report/tap.c: a program from the
-- items that its macros define to its return code.
use pcut.Common.{
  ℕ, suc, ◌≤◌, ◌<◌, ◌≡◌, refl, ap, ◌∙◌, some, none, List, [], ◌∷◌, ◌++◌, Bytes, length, AllDistinct,
  ◌==◌, done, if◌then◌else◌,
}
use pcut.Item.{Addr, Func, Store}
use pcut.Items.Walk.{tests_among}
use pcut.Items.Tree.{Entries, IsFile, file, first_addr, depths}
use pcut.Macros.{main_extra_set_last}
use pcut.Report.State.{tap_handler}
use pcut.Report.Counted.{planned, report_init-planned}
use pcut.Report.TapStyle.{tap_style}
use pcut.TestRun.{Called, World}
use pcut.Main.{pcut_main}
use pcut.Main.Ends.{goes, Runner, outcome_fail}
use pcut.Main.Members.{AllTests, suite_tests}
use pcut.Main.Program.{shown_items}
use pcut.Forking.Process.{Machine, Works}
use pcut.Main.Forks.{in_forks, FitsHere}
use pcut.Main.Verdicts.{failing_among}
use pcut.Main.Cases.{case_of, verdict_of}
use pcut.Report.Style.{Case}
use pcut.Main.Written.{document, planned-document}
use pcut.Main.Prepared.{file-Prepared}
use pcut.Main.Declared.{declared}
use pcut.Main.Plain.{started, pcut_main-run_all}
use pcut.Main.Ran.{total, run_total, run_failures, document-source, source_run}

module _ (machines : Addr → Machine) {U : Type 0} (call : Func → U → Called U)
    (preinit_hook : Func → List Bytes → U → List Bytes × U) (init_hook : Func → U → U)
    (run_here : Runner U) (works : (a : Addr) → Works (machines a)) (d k : ℕ) (es : Entries)
    (z : Addr) (name : Bytes) (w : World U) where
  abbrev before : Store
  before = w.store

  -- The items of the program in the order of the source, as they are declared.
  abbrev items : List Addr
  items = file es z

  abbrev source : Store
  source = declared (shown_items before) items

  -- What the report is told of each test, and whether it fails.
  abbrev cases : Addr → Case
  cases = case_of call source items w.user

  abbrev verdicts : Addr → ℕ
  verdicts = verdict_of call source items w.user

  -- A program that is started without options runs all its tests, each in a process of its own on
  -- Unix, and comes back with a pass exactly when no test fails, and else with a failure. A test
  -- fails when its story does: the set-up function of its suite, the test unless that fails, and
  -- the tear-down function in any case, where the functions of a suite are the last that the
  -- source declares before the next suite, or its own when there are none. The TAP report counts
  -- each test that is not marked to be skipped, and each that fails, and prints nothing else than
  -- the plan for that number of tests, for each suite with tests its start, its tests with their
  -- numbers, names and verdicts, each followed by its messages and then its output line by line,
  -- and its end with its failures, and last the number of all failures. The conditions are that
  -- the items are laid out as the macros do it at different addresses, without hooks or the XML
  -- report, that the fuel covers the nesting of the imports and the number of the items, that no
  -- test stands before the first suite, that no message is left from before, that each test has a
  -- function and a story that holds no NUL and fits the buffers, and that the system makes pipes
  -- and processes, delivers what is written to the standard output, no read coming back empty
  -- before the end, tells the exit code, and has nothing on the standard error.
  pub pcut_main-verdicts :
      IsFile before es z
      → AllDistinct items
      → depths es < d
      → length items ≤ suc (suc k)
      → (before z).main_extras ≡ some (main_extra_set_last ∷ [])
      → AllTests source (FitsHere machines call items source w.user) items
      → w.run.prev_message ≡ none
      → suite_tests source items ≡ []
      → (v : World U) × (pcut_main
            (in_forks machines call (suc (suc k)))
            preinit_hook
            init_hook
            run_here
            d
            (suc (suc k))
            z
            (name ∷ [])
            w
          ≡ goes (if failing_among source verdicts items == 0 then 0 else outcome_fail) v)
        × (v.report.tap.test_counter ≡ tests_among source items)
        × (v.report.tap.failed_test_counter ≡ failing_among source verdicts items)
        × (v.report.out
            ≡ w.report.out
              ++ document source cases tap_style
                  (tests_among source items)
                  (failing_among source verdicts items)
                  items)
  pcut_main-verdicts f ds dp l extras ok m none_before =
      let n = suc (suc k) in
      let (h, p) = file-Prepared n d before es z f ds dp l in
      let begun = started tap_handler h w in
      let all = tests_among source items in
      let init =
        report_init-planned n h (some (first_addr es z)) items begun.report refl p.chain l
        ∙ ap (λ t. done (planned t begun.report)) (total machines call works d k es z w h p) in
      let (v, runs, written) =
        source_run machines call works d k es z w h p none_before begun.report
          (planned all begun.report) l ok m init in
      let spoke =
        planned-document h (case_of call h items w.user) items begun.report v.report all
          (failing_among source verdicts items) refl written
          (run_total machines call works d k es z w h p none_before)
          (run_failures machines call works d k es z w h p none_before) in
      (
        v,
        pcut_main-run_all (in_forks machines call n) preinit_hook init_hook run_here d n z
              (first_addr es z) name p.list h w p.flattens (p.main_extras ∙ extras) p.collects
            ∙ runs,
        spoke.tests,
        spoke.failed,
        spoke.out
            ∙ ap (λ t. w.report.out ++ t)
                (document-source machines call works d k es z w h p tap_style all
                  (failing_among source verdicts items)),
      )
