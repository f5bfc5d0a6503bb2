-- ===== src/TestRun/Single.antt =====
-- A test that is run in the process that reports it.
use pcut.Common.{ℕ, suc, true, false, ◌≡◌, refl, ap, ◌∙◌, Option, none, some, Bytes, done}
use pcut.Item.{Func, Item, Store}
use pcut.Report.{report_test_start, report_test_done}
use pcut.Report.State.{Report, print}
use pcut.TestRun.{
  Called, World, RunState, SuitePtr, no_suite, suite_item, finished, result_of, forget_current,
  find_parent_suite, run_test, run_test_single,
}
use pcut.TestRun.Modes.{early-true, end_of}
use pcut.TestRun.Ending.{torn_down, run_in_suite-ending}
use pcut.TestRun.Story.{story, verdict, outcome}

result-outcome :
    {U : Type 0} (b t : Option Bytes) (w : World U)
    → result_of (end_of true (outcome b t) w) ≡ finished (outcome b t) w
result-outcome none none w = refl
result-outcome none (some t) w = refl
result-outcome (some b) t w = refl

-- A world between two tests; nothing is assumed of the flags that the last run left behind.
abbrev pub idle : {U : Type 0} → Store → RunState → Report → U → World U
idle h run r u = record {
  store = h;
  run = record run { prev_message = none };
  report = r;
  user = u;
}

-- The flags behind a run in single mode.
abbrev pub single_flags : RunState
single_flags = record {
  execute_teardown_on_failure = false;
  report_test_result = true;
  print_test_error = false;
  leave_means_exit = false;
  current_test = none;
  current_suite = no_suite;
  prev_message = none;
}

-- `pcut_run_test_single` tells the story of the test: it returns a pass or a failure, the
-- tear-down function was called in the end, the test is reported as started and, behind all that
-- its functions printed, as done with the message of its body and that of its tear-down, and the
-- flags are reset. The conditions are that the test has a function, that its suite is found with
-- the fuel given, and that no message is left from a test before.
pub run_test_single-story :
    {U : Type 0} (call : Func → U → Called U) (k : ℕ) (h : Store) (a f : ℕ) (sp : SuitePtr)
    (s : Item) (run : RunState) (r : Report) (u : U)
    → (h a).test_func ≡ some f
    → find_parent_suite (suc (suc k)) h (some a) ≡ done sp
    → suite_item h sp ≡ some s
    → run_test_single call (suc (suc k)) a (idle h run r u) ≡ (
        let st = story call s f u in
        finished (verdict st) (record {
          store = h;
          run = single_flags;
          report =
              report_test_done
                (h a)
                (verdict st)
                st.body.message
                st.teardown.message
                none
                (print st.teardown.text (print st.body.text (report_test_start (h a) r)));
          user = st.teardown.user;
        }))
unfolding run_test_single run_test
run_test_single-story call k h a f sp s run r u tf parent suite =
    let st = story call s f u in
    let began = report_test_start (h a) r in
    rw
      (
        parent,
        run_in_suite-ending call h a sp s f suite tf true k run.execute_teardown_on_failure
            run.current_test run.current_suite began u,
      )
      (ap forget_current (
          result-outcome st.body.message st.teardown.message (
            torn_down call h a sp s f suite tf true (print st.body.text began) st.body.user
              st.body.message))
        ∙ rw (early-true st.body.message (print st.body.text began)) refl)
