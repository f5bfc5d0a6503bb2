-- ===== src/Helenos/Reported.antt =====
-- `pcut_run_test_forking` of src/os/helenos.c: what of the temporary file is reported.
use pcut.Common.{◌≤◌, ◌<◌, ◌≡◌, true, none, some, List, ℤ, length, done}
use pcut.Item.{Item}
use pcut.Output.RoundTrip.{Chunk, render, plain_text, message_lines, NoNuls}
use pcut.Report.{report_test_start, report_test_done}
use pcut.Report.State.{Report}
use pcut.Generic.Reported.{file_reported}
use pcut.Helenos.{
  System, returned, task_status, task_output, test_number_argument, run_test_forking,
}

-- What the task of a test wrote to the temporary file is reported: all text as extra output, and
-- the failure messages as the error message, with the outcome of its return value. The conditions
-- are that the file is made, the task is started and ends with a return value, that text and
-- messages hold no NUL and each of the two is shorter than 4096 bytes, and that all output is at
-- most 8190 bytes long.
pub run_test_forking-task_reported :
    (sys : System) (task_retval : ℤ) (cs : List Chunk) (test : Item) (r : Report)
    → sys.create_tempfile ≡ true
    → sys.spawn (test_number_argument test) ≡ true
    → sys.task ≡ returned task_retval
    → sys.content ≡ render cs
    → NoNuls cs
    → length (plain_text cs) < 4096
    → length (message_lines cs) < 4096
    → length (render cs) ≤ 8190
    → (let outcome = task_status (returned task_retval) in
        run_test_forking sys test r
        ≡ done (
            some (
              outcome,
              report_test_done test outcome
                  (some (message_lines cs))
                  none
                  (some (plain_text cs))
                  (report_test_start test r),
            )))
unfolding run_test_forking task_output
run_test_forking-task_reported sys task_retval cs test r c s t o nn lp lm l =
    rw (c, s, t, o)
      (file_reported cs (task_status (returned task_retval)) test (report_test_start test r) nn lp
        lm l)
