-- ===== src/Helenos.antt =====
-- src/os/helenos.c: running one test as a task of HelenOS, with its output in a temporary file.
--
-- The system is a parameter: which calls succeed, how the task ends, and what the file holds. The fibril
-- that kills the task when it is too slow is a way for the task to end.
pub mod Reported
use pcut.Common.{
  ℕ, Bool, true, false, Option, none, some, List, [], ◌∷◌, ◌++◌, ℤ, pos, negsuc, Bytes, codes,
  int_eq, if◌then◌else◌, take, Run, done, decimal_int,
}
use pcut.Item.{Item}
use pcut.Report.{report_test_start, report_test_done}
use pcut.Report.State.{Report}
use pcut.Forking.{output_buffer_size, outcome_internal_error, cleared_output, report_captured}
use pcut.Generic.{read_file}

-- What `task_wait` tells: an error, an unexpected end, or a return value.
pub data TaskEnd : Type 0 where
  wait_error : TaskEnd
  unexpected : TaskEnd
  returned : ℤ → TaskEnd

pub record System : Type 0 where
  pub create_tempfile : Bool
  pub spawn : Bytes → Bool
  pub task : TaskEnd
  pub content : Bytes

-- The argument that names the test.
unfoldable pub test_number_argument : Item → Bytes
unfolding decimal_int
test_number_argument test = take 23 (codes "-t" ++ decimal_int test.id)

-- The status behind `task_wait`.
unfoldable pub task_status : TaskEnd → ℕ
task_status wait_error = outcome_internal_error
task_status unexpected = outcome_internal_error
task_status (returned task_retval) = if int_eq task_retval (pos 0) then 0 else 1

-- The output buffer at `leave_close_tempfile`; the file is not read when the task was not waited for.
unfoldable pub task_output : TaskEnd → Bytes → Bytes
task_output wait_error content = cleared_output output_buffer_size
task_output unexpected content = read_file output_buffer_size content
task_output (returned task_retval) content = read_file output_buffer_size content

-- `pcut_run_test_forking`
unfoldable pub run_test_forking : System → Item → Report → Run (Option (ℕ × Report))
unfolding test_number_argument task_status
run_test_forking sys test r =
    let r₁ = report_test_start test r in
    if sys.create_tempfile
    then (if sys.spawn (test_number_argument test)
        then report_captured test (task_status sys.task) (task_output sys.task sys.content) r₁
        else report_captured test outcome_internal_error (cleared_output output_buffer_size) r₁)
    else done (
        some (
          outcome_internal_error,
          report_test_done test outcome_internal_error
              (some (codes "Failed to create temporary file.")) none none r₁,
        ))
