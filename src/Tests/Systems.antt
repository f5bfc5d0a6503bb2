-- ===== src/Tests/Systems.antt =====
-- Tests in processes of Unix, of Windows, of HelenOS and behind `system`.
use pcut.Common.{
  drop, ◌++◌, ℕ, ◌≡◌, refl, true, false, none, some, List, [], ◌∷◌, ◌++◌, pos, codes, decimal, done,
  arith, replicate,
}
use pcut.Item.{Item}
use pcut.Output.{last_byte, print_fail_message}
use pcut.Output.Newline.{trim}
use pcut.Output.RoundTrip.{Chunk, failure, plain_text, message_lines}
use pcut.Report.{report_test_start, report_test_done}
use pcut.Windows
use pcut.Windows.{wait_object_0, format_command}
use pcut.Windows.Calls.{
  calls_of, judged_calls, first_failed, captured_end, run_test_forking-judged_calls,
}
use pcut.Windows.Reading.{as_unix, read_test_output_on_background-capture}
use pcut.Windows.Commands.{format_command-first_digit}
use pcut.Generic
use pcut.Generic.Reported.{run_test_forking-file_reported, run_test_forking-long_file_lost}
use pcut.Helenos
use pcut.Helenos.Reported.{run_test_forking-task_reported}
use pcut.Forking.{
  cleared_output, System, exited, capture, run_test_forking, convert_wait_status_to_outcome,
}
use pcut.Forking.Reading.{AllArrive}
use pcut.Forking.Capture.{capture-overwritten, run_test_forking-reported}
use pcut.Output.Parse.{zeros}
use pcut.Tests.Items.{linked_items}
use pcut.Tests.Outputs.{told_chunks}
use pcut.Tests.Stories.{report_start}

abbrev system : System
system = record {
  first_pipe_fails = false;
  second_pipe_fails = false;
  fork_fails = false;
  strerror = [];
  stdout = codes "hi" ∷ print_fail_message (some (codes "boom")) ∷ [];
  stderr = [];
  status = exited 1;
}

system-AllArrive : AllArrive system.stdout
unfolding print_fail_message
system-AllArrive = (omega arith, (omega arith, tt))

abbrev line_chunks : List Chunk
line_chunks = failure (codes "boom") ∷ Chunk.plain (codes "hi\n") ∷ []

abbrev line_system : System
line_system = record system {
  stdout = print_fail_message (some (codes "boom")) ∷ codes "hi\n" ∷ [];
}

line_system-AllArrive : AllArrive line_system.stdout
unfolding print_fail_message
line_system-AllArrive = (omega arith, (omega arith, tt))

run_test_forking-reported_example :
    run_test_forking line_system (linked_items 2) report_start
    ≡ done (
        some (
          convert_wait_status_to_outcome (exited 1),
          report_test_done
              (linked_items 2)
              (convert_wait_status_to_outcome (exited 1))
              (some (message_lines line_chunks))
              none
              (some (plain_text (trim line_chunks)))
              (report_test_start (linked_items 2) report_start),
        ))
unfolding print_fail_message
run_test_forking-reported_example =
    run_test_forking-reported line_system line_chunks (linked_items 2) report_start refl refl refl
      refl line_system-AllArrive refl
      ((refl, (refl, (refl, (refl, tt)))), ((refl, (refl, (refl, tt))), tt)) (omega arith)
      (omega arith) (omega arith)

-- A process that writes more to its standard error than to its standard output.
abbrev noisy : System
noisy = record system { stdout = codes "hi" ∷ []; stderr = codes "oops" ∷ [] }

capture-overwritten_example : capture 16 noisy ≡ codes "hi" ++ drop 2 (codes "oops" ++ zeros 12)
capture-overwritten_example =
    capture-overwritten 16 noisy (omega arith, tt) (omega arith, tt) (omega arith) refl refl

abbrev windows : Windows.System
windows = record {
  create_stdout = true;
  inherit_stdout = true;
  create_stderr = true;
  inherit_stderr = true;
  create_stdin = true;
  inherit_stdin = true;
  create_process = true;
  close_stdout = true;
  close_stderr = false;
  close_stdin = true;
  create_thread = true;
  first_wait = wait_object_0;
  terminate = true;
  second_wait = wait_object_0;
  exit_code_known = true;
  exit_code = 1;
  reader_wait = wait_object_0;
  stdout = some (codes "hi") ∷ none ∷ [];
  stderr = [];
}

run_test_forking-judged_calls_example :
    Windows.run_test_forking (linked_items 2) windows report_start
    ≡ judged_calls
        (linked_items 2)
        windows
        (report_test_start (linked_items 2) report_start)
        (first_failed (calls_of windows))
        (captured_end (linked_items 2) windows (report_test_start (linked_items 2) report_start))
run_test_forking-judged_calls_example =
    run_test_forking-judged_calls (linked_items 2) windows report_start

read_test_output_on_background-capture_example :
    Windows.read_test_output_on_background 16 windows (cleared_output 16)
    ≡ capture 16 (as_unix windows)
read_test_output_on_background-capture_example = read_test_output_on_background-capture 16 windows

abbrev numbered_test : ℕ → Item
numbered_test n = record (linked_items 2) { id = pos n }

format_command-first_digit_example :
    format_command (replicate 248 97) (numbered_test 12)
    ≡ format_command (replicate 248 97) (numbered_test 1)
unfolding decimal
format_command-first_digit_example =
    format_command-first_digit (replicate 248 97) (numbered_test 12) (numbered_test 1) 12 1 49
      (50 ∷ []) [] refl refl refl refl refl

abbrev shell : Generic.System
shell = record {
  pid = pos 7;
  system = λ command. pos 1;
  tempfile = λ command name. some (codes "hi" ++ print_fail_message (some (codes "boom")));
}

run_test_forking-file_reported_example :
    Generic.run_test_forking 3 shell (codes "./a") (linked_items 2) report_start
    ≡ done (
        some (
          1,
          report_test_done
              (linked_items 2)
              1
              (some (message_lines told_chunks))
              none
              (some (plain_text told_chunks))
              (report_test_start (linked_items 2) report_start),
        ))
unfolding print_fail_message Generic.convert_wait_status_to_outcome
run_test_forking-file_reported_example =
    run_test_forking-file_reported 3 shell (codes "./a") told_chunks (linked_items 2) report_start
      refl ((refl, (refl, tt)), ((refl, (refl, (refl, (refl, tt)))), tt)) (omega arith)
      (omega arith) (omega arith)

abbrev long_file : Generic.System
long_file = record shell { tempfile = λ command name. some (replicate 8192 97) }

run_test_forking-long_file_lost_example :
    Generic.run_test_forking 3 long_file (codes "./a") (linked_items 2) report_start
    ≡ done (
        some (
          1,
          report_test_done
              (linked_items 2)
              1
              (some [])
              none
              (some [])
              (report_test_start (linked_items 2) report_start),
        ))
unfolding Generic.convert_wait_status_to_outcome last_byte
run_test_forking-long_file_lost_example =
    run_test_forking-long_file_lost 3 long_file (codes "./a") (replicate 8192 97) 97
      (linked_items 2) report_start refl (omega arith) refl (omega arith)

abbrev task : Helenos.System
task = record {
  create_tempfile = true;
  spawn = λ argument. true;
  task = Helenos.returned (pos 1);
  content = codes "hi" ++ print_fail_message (some (codes "boom"));
}

run_test_forking-task_reported_example :
    Helenos.run_test_forking task (linked_items 2) report_start
    ≡ done (
        some (
          1,
          report_test_done
              (linked_items 2)
              1
              (some (message_lines told_chunks))
              none
              (some (plain_text told_chunks))
              (report_test_start (linked_items 2) report_start),
        ))
unfolding print_fail_message Helenos.task_status
run_test_forking-task_reported_example =
    run_test_forking-task_reported task (pos 1) told_chunks (linked_items 2) report_start refl refl
      refl refl ((refl, (refl, tt)), ((refl, (refl, (refl, (refl, tt)))), tt)) (omega arith)
      (omega arith) (omega arith)
