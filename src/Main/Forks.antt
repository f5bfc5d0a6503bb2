-- ===== src/Main/Forks.antt =====
-- src/main.c with src/os/unix.c and src/run.c: a run of all tests, each in a process of its own.
use pcut.Common.{
  ℕ, suc, ◌≤◌, ◌≡◌, refl, true, some, none, List, [], ◌++◌, Bytes, codes, decimal, arith, length,
  done, has, ◌==◌, if◌then◌else◌,
}
use pcut.Item.{Addr, Func, Store}
use pcut.Items.Walk.{Chain, tests_among}
use pcut.Items.Links.{Back}
use pcut.Output.RoundTrip.{message_lines, plain_text}
use pcut.Output.Newline.{trim}
use pcut.Report.{report_init, report_test_start, report_test_done, report_done}
use pcut.Report.State.{Report}
use pcut.Report.Counted.{
  Counted-join, IsTap, report_init-ends, report_test_start-Counted, report_test_done-Counted,
}
use pcut.TestRun.{Called, World, RunState, find_parent_suite, run_test_single}
use pcut.TestRun.Story.{Story, story, verdict}
use pcut.TestRun.Forked.{chunks}
use pcut.TestRun.Parent.{
  host, suite_ptr, suite_fields, suite_item-suite_ptr, find_parent_suite-host,
}
use pcut.Forking.Process.{Machine, Works, Fits, fork_test, fork_test-story}
use pcut.Main.Ends.{set_report, goes, Runner, forking, single, outcome_fail}
use pcut.Main.Members.{ComesBack, AllTests, with_items, suite_tests}
use pcut.Main.Loop.{run_all}
use pcut.Main.Whole.{whole, run_all-linked}
use pcut.Main.Tally.{CountsTests}
use pcut.Main.Counters.{counted_run}

module _ (machines : Addr → Machine) {U : Type 0} (call : Func → U → Called U) where
  -- The two ways to run a test on Unix.
  abbrev pub in_forks : ℕ → Runner U
  in_forks n forking a w = fork_test machines call n a w
  in_forks n single a w = run_test_single call n a w

  -- The story of a test as the report tells it: its process changes nothing here.
  abbrev pub retold : List Addr → Addr → World U → ℕ × World U
  retold xs a w = elim ((w.store a).test_func) [
    | none ↦ (0, w)
    | some f ↦
        let st = story call (suite_fields w.store (host w.store none xs a)) f w.user in
        (
          verdict st,
          record w {
            report =
                report_test_done (w.store a) (verdict st) (some (message_lines (chunks st))) none
                  (some (plain_text (trim (chunks st)))) (report_test_start (w.store a) w.report);
          },
        )
  ]

  -- No message is left, and the functions start from the same state each time.
  abbrev pub Fresh : U → RunState → U → Type 0
  Fresh u run v = (run.prev_message ≡ none) × (v ≡ u)

  -- A test with a function, whose story fits the buffers.
  abbrev pub FitsHere : List Addr → Store → U → Addr → Type 0
  FitsHere xs h u a =
      (has a xs ≡ true)
      × ((f : Func) × ((h a).test_func ≡ some f)
          × Fits (story call (suite_fields h (host h none xs a)) f u))

  module _ (xs : List Addr) (h : Store) (u : U) where
    retold-CountsTests : CountsTests (retold xs) h (FitsHere xs h u)
    retold-CountsTests a w (i, (f, tf, fits)) e =
        let st : Story U = story call (suite_fields h (host h none xs a)) f w.user in
        let r = report_test_start (h a) w.report in
        let c = report_test_start-Counted (h a) w.report e in
        let d =
          report_test_done-Counted (h a) (verdict st) (some (message_lines (chunks st))) none
            (some (plain_text (trim (chunks st)))) r c.handler in
        rw tf (Counted-join c d (omega arith) (omega arith))

    module _ (works : (a : Addr) → Works (machines a)) where
      pub in_forks-ComesBack :
          (k : ℕ)
          → Back h none xs
          → length xs ≤ suc (suc k)
          → ComesBack (in_forks (suc (suc k))) forking (retold xs) h (Fresh u) (FitsHere xs h u)
      unfolding find_parent_suite
      in_forks-ComesBack k b l a w (i, (f, tf, fits)) (e, v) =
          let p = host h none xs a in
          let s = suite_fields h p in
          let parent =
            find_parent_suite-host 0 (suc (suc k)) h none none xs a refl b i (omega arith) in
          let here : Fits (story call s f w.user) = rw v fits in
          rw tf (
            fork_test-story machines call works k h a f (suite_ptr p) s w tf parent
                (suite_item-suite_ptr h p) e here,
            (e, v),
          )

      -- A run of all tests, each in a process of its own on Unix, with any report: the report is
      -- begun, suite by suite each test is reported as started and as done with the verdict of its
      -- story, all its messages as the error message and all its text as extra output, without a
      -- newline at the very end of its output, and the report is ended. The list is doubly linked;
      -- the conditions are fuel for its length, that no message is left from before, that each
      -- test has a function and a story that holds no NUL and fits the buffers, and that the
      -- system makes pipes and processes, delivers what is written to the standard output, no read
      -- coming back empty before the end, tells the exit code, and has nothing on the standard
      -- error.
      pub run_all-forked :
          (k : ℕ) (first : Addr) (w : World U)
          → Chain h (some first) xs
          → Back h none xs
          → AllTests h (FitsHere xs h u) xs
          → w.run.prev_message ≡ none
          → w.user ≡ u
          → length xs ≤ suc (suc k)
          → (r : Report) × (report_init (suc (suc k)) h (some first) w.report ≡ done r)
            × (run_all (in_forks (suc (suc k))) forking (suc (suc k)) (some first) (with_items h w)
                ≡ (let end =
                      whole
                        (in_forks (suc (suc k)))
                        forking
                        (retold xs)
                        h
                        xs
                        0
                        (with_items h (set_report w r)) in
                    goes end.0 (set_report end.1 (report_done end.1.report))))
      run_all-forked k first w c b ok e v l =
          let (r, init) = report_init-ends (suc (suc k)) h (some first) xs w.report c l in
          (
            r,
            init,
            run_all-linked (in_forks (suc (suc k))) forking (retold xs) h (Fresh u)
                (FitsHere xs h u) (in_forks-ComesBack k b l) (suc (suc k)) first xs w r c ok (e, v)
                l init,
          )

      -- With the TAP report and no test before the first suite, the run of all tests in processes
      -- of their own comes back; its output starts with a plan for as many tests as are then
      -- counted, which are all tests of the list, and the return code is a pass when the counter
      -- of failures is 0 and else a failure. The list is doubly linked; the conditions are fuel
      -- for its length, that no message is left from before, that each test has a function and a
      -- story that holds no NUL and fits the buffers, and that the system makes pipes and
      -- processes, delivers what is written to the standard output, no read coming back empty
      -- before the end, tells the exit code, and has nothing on the standard error.
      run_all-forked_counted :
          (k : ℕ) (first : Addr) (w : World U)
          → Chain h (some first) xs
          → Back h none xs
          → AllTests h (FitsHere xs h u) xs
          → w.run.prev_message ≡ none
          → w.user ≡ u
          → IsTap w.report
          → length xs ≤ suc (suc k)
          → suite_tests h xs ≡ []
          → (rc : ℕ) × ((v : World U) × (run_all
                  (in_forks (suc (suc k)))
                  forking
                  (suc (suc k))
                  (some first)
                  (with_items h w)
                ≡ goes rc v)
              × (v.report.tap.test_counter ≡ tests_among h xs)
              × (rc ≡ (if v.report.tap.failed_test_counter == 0 then 0 else outcome_fail))
              × ((rest : Bytes) × (v.report.out
                    ≡ (w.report.out ++ (codes "1.." ++ (decimal (tests_among h xs) ++ codes "\n")))
                      ++ rest)))
      run_all-forked_counted k first w c b ok e v t l none_before =
          counted_run (in_forks (suc (suc k))) forking (retold xs) h (Fresh u) (FitsHere xs h u)
            (in_forks-ComesBack k b l) retold-CountsTests (suc (suc k)) first xs w c ok (e, v) t l
            none_before
