-- ===== src/Main/FromMacros.antt =====
-- The whole of the library: a test program in its macros, to its return code and its text.
use pcut.Common.{
  ℕ, suc, ◌≤◌, ◌<◌, ◌≡◌, refl, ap, ◌∙◌, none, List, [], ◌∷◌, ◌++◌, Bytes, codes, length,
  AllDistinct, ◌==◌, if◌then◌else◌,
}
use pcut.Item.{Addr, Func, Item, Store}
use pcut.Items.Walk.{tests_among}
use pcut.Items.Tree.{file, depths}
use pcut.Report.TapStyle.{tap_style}
use pcut.TestRun.{Called, World}
use pcut.Main.{pcut_main}
use pcut.Main.Ends.{goes, Runner, outcome_fail}
use pcut.Main.Members.{AllTests, suite_tests}
use pcut.Main.Program.{shown_items}
use pcut.Forking.Process.{Machine, Works}
use pcut.Main.Forks.{in_forks, FitsHere}
use pcut.Main.Verdicts.{failing_among}
use pcut.Main.Cases.{case_of, verdict_of}
use pcut.Report.Style.{Case}
use pcut.Main.Written.{document}
use pcut.Main.Declared.{declared}
use pcut.Item.{skip, testsuite}
use pcut.Items.Linked.{shown}
use pcut.Macros.{Source, main_item}
use pcut.Macros.Layout.{Holds, Holds-IsFile, entries_of, last_item}
use pcut.Macros.Begun.{Holds-init_item}
use pcut.Main.Declared.{declared-kind_skip, declared-kind_testsuite}
use pcut.Main.Static.{pcut_main-verdicts}
use pcut.Main.StaticXml.{pcut_main-xml_document}
use pcut.Report.XmlDocument.{xml_style}

-- No test stands before the first suite of a program.
program-suite_tests :
    (h : Store) (s : Source) (z : Addr)
    → Holds h s
    → (let items = file (entries_of s) z in suite_tests (declared (shown_items h) items) items ≡ [])
unfolding shown
program-suite_tests h s z o =
    let items = file (entries_of s) z in
    let m = declared (shown_items h) items in
    let (a, b, (more, e, first, suite)) = Holds-init_item h s o in
    let skipped : (m a).kind ≡ skip =
      declared-kind_skip (shown_items h) items a (ap (λ it. shown it) first) in
    let a_suite : (m b).kind ≡ testsuite =
      declared-kind_testsuite (shown_items h) items b (ap (λ it. shown it) suite) in
    ap (λ xs. suite_tests m (xs ++ z ∷ [])) e ∙ rw (skipped, a_suite) refl

module _ (machines : Addr → Machine) {U : Type 0} (call : Func → U → Called U)
    (preinit_hook : Func → List Bytes → U → List Bytes × U) (init_hook : Func → U → U)
    (run_here : Runner U) (works : (a : Addr) → Works (machines a)) (d k : ℕ) (program : Source)
    (z : Addr) (name : Bytes) (w : World U) where
  abbrev items : List Addr
  items = file (entries_of program) z

  abbrev source : Store
  source = declared (shown_items w.store) items

  abbrev cases : Addr → Case
  cases = case_of call source items w.user

  abbrev verdicts : Addr → ℕ
  verdicts = verdict_of call source items w.user

  -- A test program that starts with PCUT_INIT, goes on with any macros for suites, tests, set-up
  -- and tear-down functions and imports, and ends with PCUT_MAIN, and is started without options,
  -- runs all its tests, each in a process of its own on Unix, and comes back with a pass exactly
  -- when no test fails, and else with a failure. A test fails when its story does: the set-up
  -- function of its suite, the test unless that fails, and the tear-down function in any case,
  -- where the functions of a suite are the last that the source declares before the next suite, or
  -- its own when there are none. The TAP report counts each test that is not marked to be skipped,
  -- and each that fails, and prints nothing else than the plan for that number of tests, for each
  -- suite with tests its start, its tests with their numbers, names and verdicts, each followed by
  -- its messages and then its output line by line, and its end with its failures, and last the
  -- number of all failures. The conditions are that the items have different addresses, that the
  -- fuel covers the nesting of the imports and the number of the items, that no message is left
  -- from before, that each test has a function and a story that holds no NUL and fits the buffers,
  -- and that the system makes pipes and processes, delivers what is written to the standard
  -- output, no read coming back empty before the end, tells the exit code, and has nothing on the
  -- standard error.
  pub pcut_main-program :
      Holds w.store program
      → w.store z ≡ main_item (last_item program) []
      → AllDistinct items
      → depths (entries_of program) < d
      → length items ≤ suc (suc k)
      → AllTests source (FitsHere machines call items source w.user) items
      → w.run.prev_message ≡ none
      → (v : World U) × (pcut_main
            (in_forks machines call (suc (suc k)))
            preinit_hook
            init_hook
            run_here
            d
            (suc (suc k))
            z
            (name ∷ [])
            w
          ≡ goes (if failing_among source verdicts items == 0 then 0 else outcome_fail) v)
        × (v.report.tap.test_counter ≡ tests_among source items)
        × (v.report.tap.failed_test_counter ≡ failing_among source verdicts items)
        × (v.report.out
            ≡ w.report.out
              ++ document source cases tap_style
                  (tests_among source items)
                  (failing_among source verdicts items)
                  items)
  pcut_main-program o e alone dp l ok m =
      pcut_main-verdicts machines call preinit_hook init_hook run_here works d k
        (entries_of program) z name w (Holds-IsFile w.store program z [] o e) alone dp l
        (ap (λ (it : Item). it.main_extras) e) ok m (program-suite_tests w.store program z o)

  -- A test program that starts with PCUT_INIT, goes on with any macros for suites, tests, set-up
  -- and tear-down functions and imports, and ends with PCUT_MAIN, and is started with the argument
  -- `-x`, runs all its tests, each in a process of its own on Unix, and comes back with a pass
  -- exactly when no test fails, and else with a failure. The XML report prints nothing else than
  -- the number of tests that are not marked to be skipped, for each suite with tests an element
  -- with its name, with one element for each of its tests with its name and status, its messages
  -- and its output, each ended by a newline, and at the end of the suite a comment with its
  -- failures and tests. No name, message or output is escaped. A test fails when its story in its
  -- suite does, where the functions of a suite are the last that the source declares before the
  -- next suite, or its own when there are none. The conditions are that the items have different
  -- addresses, that the fuel covers the nesting of the imports and the number of the items, that
  -- no message is left from before, that each test has a function and a story that holds no NUL
  -- and fits the buffers, and that the system makes pipes and processes, delivers what is written
  -- to the standard output, no read coming back empty before the end, tells the exit code, and has
  -- nothing on the standard error.
  pub pcut_main-program_xml :
      Holds w.store program
      → w.store z ≡ main_item (last_item program) []
      → AllDistinct items
      → depths (entries_of program) < d
      → length items ≤ suc (suc k)
      → AllTests source (FitsHere machines call items source w.user) items
      → w.run.prev_message ≡ none
      → (v : World U) × (pcut_main
            (in_forks machines call (suc (suc k)))
            preinit_hook
            init_hook
            run_here
            d
            (suc (suc k))
            z
            (name ∷ codes "-x" ∷ [])
            w
          ≡ goes (if failing_among source verdicts items == 0 then 0 else outcome_fail) v)
        × (v.report.out
            ≡ w.report.out
              ++ document source cases xml_style
                  (tests_among source items)
                  (failing_among source verdicts items)
                  items)
  pcut_main-program_xml o e alone dp l ok m =
      pcut_main-xml_document machines call preinit_hook init_hook run_here works d k
        (entries_of program) z name w (Holds-IsFile w.store program z [] o e) alone dp l
        (ap (λ (it : Item). it.main_extras) e) ok m (program-suite_tests w.store program z o)
