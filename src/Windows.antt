-- ===== src/Windows.antt =====
-- src/os/windows.c: running one test in a process of its own on Windows.
--
-- The system is a parameter: which calls succeed, what arrives on the two pipes, read by read, how the
-- waiting ends, and the exit code. The reader thread works on the buffer that is reported only after it
-- was waited for, so its work stands where the buffer is used.
pub mod Calls
pub mod Reading
pub mod Commands
use pcut.Common.{
  ℕ, ◌-◌, ◌+◌, Bool, true, false, not, ◌&&◌, Option, none, some, List, [], ◌∷◌, ◌++◌, Bytes, codes,
  ltb, ◌==◌, if◌then◌else◌, length, take, drop, Run, done, decimal_int,
}
use pcut.Item.{Item}
use pcut.Report.{report_test_start, report_test_done}
use pcut.Report.State.{Report}
use pcut.Forking.{
  output_buffer_size, outcome_internal_error, cleared_output, report_captured, strip_newline,
}

-- How `WaitForSingleObject` returns.
pub data Wait : Type 0 where
  wait_object_0 wait_timeout wait_failed : Wait

abbrev pub is_object : Wait → Bool
is_object wait_object_0 = true
is_object _ = false

abbrev pub is_timeout : Wait → Bool
is_timeout wait_timeout = true
is_timeout _ = false

-- The calls of `pcut_run_test_forking` in their order; an offer of a pipe is `none` when `ReadFile` fails.
pub record System : Type 0 where
  pub create_stdout : Bool
  pub inherit_stdout : Bool
  pub create_stderr : Bool
  pub inherit_stderr : Bool
  pub create_stdin : Bool
  pub inherit_stdin : Bool
  pub create_process : Bool
  pub close_stdout : Bool
  pub close_stderr : Bool
  pub close_stdin : Bool
  pub create_thread : Bool
  pub first_wait : Wait
  pub terminate : Bool
  pub second_wait : Wait
  pub exit_code_known : Bool
  pub exit_code : ℕ
  pub reader_wait : Wait
  pub stdout : List (Option Bytes)
  pub stderr : List (Option Bytes)

-- The loop of `read_all`: the bytes that it stores.
unfoldable pub read_loop : List (Option Bytes) → ℕ → Bytes
read_loop [] buffer_size = []
read_loop (none ∷ offers) buffer_size = []
read_loop (some offer ∷ offers) buffer_size =
    let got = take buffer_size offer in
    let rest = read_loop offers (buffer_size - length got) in
    if length got == 0 then [] else if buffer_size - length got == 0 then got else got ++ rest

unfoldable pub read_all : List (Option Bytes) → Bytes → ℕ → Bytes × ℕ
unfolding read_loop strip_newline
read_all offers buffer buffer_size =
    let r = strip_newline (read_loop offers buffer_size) in (r.0 ++ drop (length r.0) buffer, r.1)

-- `read_test_output_on_background`: the output buffer behind it.
unfoldable pub read_test_output_on_background : ℕ → System → Bytes → Bytes
unfolding read_all
read_test_output_on_background size sys buffer =
    let r = read_all sys.stderr buffer (size - 1) in (read_all sys.stdout r.0 (size - 1 - r.1)).0

-- The command line that is formatted.
unfoldable pub format_command : Bytes → Item → Bytes
unfolding decimal_int
format_command self_path test =
    take 254 (codes "\"" ++ (self_path ++ (codes "\" -t" ++ decimal_int test.id)))

-- `report_func_fail`, and the return behind it
unfoldable pub report_func_fail : Item → Bytes → Report → Run (Option (ℕ × Report))
report_func_fail test failed_function_name r =
    let message =
      take (output_buffer_size - 2) (failed_function_name ++ codes " failed: unknown reason.") in
    done (
      some (
        outcome_internal_error,
        report_test_done test outcome_internal_error (some message) none none r,
      ))

-- The exit code as an outcome.
unfoldable pub outcome_of_exit : ℕ → Bool → ℕ
outcome_of_exit rc timed_out =
    if rc == 0 then 0 else if ltb rc 10 && not timed_out then 1 else outcome_internal_error

abbrev pub process_wait : Bytes
process_wait = codes "WaitForSingleObject(/* PROCESS_INFORMATION.hProcess */)"

module _ (test : Item) (sys : System) where
  -- `if (!okay) { report_func_fail(…); return …; }`, and the rest of the function
  unfoldable pub check :
      Bool → Bytes → Report → Run (Option (ℕ × Report)) → Run (Option (ℕ × Report))
  check okay name r rest = if okay then rest else report_func_fail test name r

  -- The part from the exit code on.
  unfoldable pub finish_test : Bool → Report → Run (Option (ℕ × Report))
  finish_test timed_out r = check sys.exit_code_known (codes "GetExitCodeProcess()") r (
      check (is_object sys.reader_wait) (codes "WaitForSingleObject(/* stdout reader thread */)") r
        (report_captured test (outcome_of_exit sys.exit_code timed_out)
          (read_test_output_on_background output_buffer_size sys
            (cleared_output output_buffer_size))
          r))

  -- The waiting for the process.
  unfoldable pub wait_for_process : Report → Run (Option (ℕ × Report))
  wait_for_process r =
      if is_timeout sys.first_wait
      then check sys.terminate (codes "TerminateProcess(/* PROCESS_INFORMATION.hProcess */)") r
          (check (is_object sys.second_wait) process_wait r (finish_test true r))
      else check (is_object sys.first_wait) process_wait r (finish_test false r)

  -- `pcut_run_test_forking` behind `before_test_start`
  unfoldable pub run_process : Report → Run (Option (ℕ × Report))
  run_process r = check sys.create_stdout (codes "CreatePipe(/* stdout */)") r (
      check sys.inherit_stdout (codes "SetHandleInformation(/* stdout */)") r (
        check sys.create_stderr (codes "CreatePipe(/* stderr */)") r (
          check sys.inherit_stderr (codes "SetHandleInformation(/* stderr */)") r (
            check sys.create_stdin (codes "CreatePipe(/* stdin */)") r (
              check sys.inherit_stdin (codes "SetHandleInformation(/* stdin */)") r (
                check sys.create_process (codes "CreateProcess()") r (
                  check sys.close_stdout (codes "CloseHandle(/* stdout */)") r (
                    check sys.close_stderr (codes "CloseHandle(/* stderr */)") r (
                      check sys.close_stdin (codes "CloseHandle(/* stdin */)") r (
                        check sys.create_thread (codes "CreateThread(/* read test stdout */)") r
                          (wait_for_process r)))))))))))

  unfoldable pub run_test_forking : Report → Run (Option (ℕ × Report))
  run_test_forking r = run_process (report_test_start test r)
