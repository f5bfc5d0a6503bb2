-- ===== src/Tests/Stories.antt =====
-- Runs of one test.
use pcut.Common.{
  ℕ, ◌+◌, ◌-◌, ◌≡◌, refl, true, false, none, some, [], ◌++◌, Bytes, codes, ◌==◌, if◌then◌else◌,
  done, arith, length,
}
use pcut.Item.{Func}
use pcut.Output.{parsed, parse_command_output}
use pcut.Output.Parse.{zeros}
use pcut.Output.RoundTrip.{render}
use pcut.Report.{report_test_start, report_test_done}
use pcut.Report.State.{Report, tap_handler, print}
use pcut.TestRun.{
  Called, returns, fails, RunState, no_suite, suite_at, finished, find_parent_suite,
  run_test_single, run_test_forked,
}
use pcut.TestRun.Story.{Story, story, verdict}
use pcut.TestRun.Single.{idle, single_flags, run_test_single-story}
use pcut.TestRun.Forked.{child_exit, chunks, run_test_forked-story}
use pcut.TestRun.Captured.{said, complaints, run_test_forked-parsed}
use pcut.Tests.Items.{linked_items}

-- Function 7 passes, 8 fails, and any other prints a text.
abbrev pub call : Func → ℕ → Called ℕ
call f u =
    if f == 7
    then returns (codes "hi") (u + 1)
    else if f == 8
    then fails (codes "look") (codes "boom") u
    else returns (codes "bye") (u + 2)

abbrev pub run_start : RunState
run_start = record {
  execute_teardown_on_failure = true;
  report_test_result = false;
  print_test_error = false;
  leave_means_exit = false;
  current_test = none;
  current_suite = no_suite;
  prev_message = none;
}

abbrev pub report_start : Report
report_start = record {
  report_ops = some tap_handler;
  tap = record {
    test_counter = 0;
    failed_test_counter = 0;
    tests_in_suite = 0;
    failed_tests_in_suite = 0;
  };
  xml = record { test_counter = 0; tests_in_suite = 0; failed_tests_in_suite = 0 };
  out = [];
}

abbrev pub failing_story : Story ℕ
failing_story = story call (linked_items 1) 8 0

pub parent_found : find_parent_suite 8 linked_items (some 4) ≡ done (suite_at 1)
unfolding find_parent_suite
parent_found = refl

run_test_single-story_example :
    run_test_single call 8 4 (idle linked_items run_start report_start 0)
    ≡ finished (verdict failing_story) (record {
      store = linked_items;
      run = single_flags;
      report =
          report_test_done
            (linked_items 4)
            (verdict failing_story)
            failing_story.body.message
            failing_story.teardown.message
            none
            (print failing_story.teardown.text
              (print failing_story.body.text (report_test_start (linked_items 4) report_start)));
      user = failing_story.teardown.user;
    })
run_test_single-story_example =
    run_test_single-story call 6 linked_items 4 8 (suite_at 1) (linked_items 1) run_start
      report_start 0 refl parent_found refl

run_test_forked-story_example :
    child_exit (run_test_forked call 8 4 (idle linked_items run_start report_start 0))
    ≡ some (
      verdict failing_story,
      print (render (chunks failing_story)) report_start,
      failing_story.teardown.user,
    )
run_test_forked-story_example =
    run_test_forked-story call 6 linked_items 4 8 (suite_at 1) (linked_items 1) run_start
      report_start 0 refl parent_found refl

run_test_forked-parsed_example :
    (out : Bytes) × (child_exit
        (run_test_forked call 8 4 (idle linked_items run_start report_start 0))
      ≡ some
          (verdict failing_story, record report_start { out = out }, failing_story.teardown.user))
    × (parse_command_output (out ++ zeros 2) 8 8
        ≡ done (
            parsed (record {
              stdio = said failing_story;
              stdio_left = 8 - length (said failing_story);
              error = complaints failing_story;
              error_left = 8 - length (complaints failing_story);
            })))
run_test_forked-parsed_example =
    run_test_forked-parsed call 6 0 8 8 linked_items 4 8 (suite_at 1) (linked_items 1) run_start
      report_start 0 refl parent_found refl refl
      (
        (refl, (refl, (refl, (refl, tt)))),
        ((refl, (refl, (refl, (refl, tt)))), ((refl, (refl, (refl, tt))), tt)),
      )
      (omega arith) (omega arith)
