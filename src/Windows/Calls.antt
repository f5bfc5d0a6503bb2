-- ===== src/Windows/Calls.antt =====
-- src/os/windows.c: a call that fails ends the function.
use pcut.Common.{
  ℕ, zero, suc, leb, take, done, arith, ◌≡◌, refl, sym, ap, ◌∙◌, Bool-cases, inl, inr, Bool, true,
  false, Option, none, some, List, [], ◌∷◌, ◌++◌, Bytes, codes, if◌then◌else◌, Run,
}
use pcut.Item.{Item}
use pcut.Report.{report_test_start, report_test_done}
use pcut.Report.State.{Report}
use pcut.Forking.{output_buffer_size, cleared_output, report_captured}
use pcut.Windows.{
  System, Wait, wait_object_0, wait_timeout, wait_failed, is_object, is_timeout, report_func_fail,
  check, outcome_of_exit, finish_test, wait_for_process, process_wait, run_process,
  run_test_forking, read_test_output_on_background,
}

-- A call that is needed, and the name that is reported for it.
abbrev pub Call : Type 0
Call = Bool × Bytes

abbrev pub first_failed : List Call → Option Bytes
first_failed [] = none
first_failed ((okay, name) ∷ calls) = if okay then first_failed calls else some name

-- The calls in their order; those for the process that timed out only when it did.
abbrev pub waiting : System → List Call
waiting sys =
    if is_timeout sys.first_wait
    then (sys.terminate, codes "TerminateProcess(/* PROCESS_INFORMATION.hProcess */)")
      ∷ (is_object sys.second_wait, process_wait)
      ∷ []
    else (is_object sys.first_wait, process_wait) ∷ []

abbrev pub ending_calls : System → List Call
ending_calls sys =
    (sys.exit_code_known, codes "GetExitCodeProcess()")
    ∷ (is_object sys.reader_wait, codes "WaitForSingleObject(/* stdout reader thread */)")
    ∷ []

abbrev pub starting_calls : System → List Call
starting_calls sys =
    (sys.create_stdout, codes "CreatePipe(/* stdout */)")
    ∷ (sys.inherit_stdout, codes "SetHandleInformation(/* stdout */)")
    ∷ (sys.create_stderr, codes "CreatePipe(/* stderr */)")
    ∷ (sys.inherit_stderr, codes "SetHandleInformation(/* stderr */)")
    ∷ (sys.create_stdin, codes "CreatePipe(/* stdin */)")
    ∷ (sys.inherit_stdin, codes "SetHandleInformation(/* stdin */)")
    ∷ (sys.create_process, codes "CreateProcess()")
    ∷ (sys.close_stdout, codes "CloseHandle(/* stdout */)")
    ∷ (sys.close_stderr, codes "CloseHandle(/* stderr */)")
    ∷ (sys.close_stdin, codes "CloseHandle(/* stdin */)")
    ∷ (sys.create_thread, codes "CreateThread(/* read test stdout */)")
    ∷ []

abbrev pub calls_of : System → List Call
calls_of sys = starting_calls sys ++ (waiting sys ++ ending_calls sys)

-- A pass for the exit code 0, a failure for 1 to 9 of a process that ended in time, and else an internal error.
abbrev pub exit_outcome : Wait → ℕ → ℕ
exit_outcome w zero = 0
exit_outcome wait_timeout (suc c) = 2
exit_outcome wait_object_0 (suc c) = if leb c 8 then 1 else 2
exit_outcome wait_failed (suc c) = if leb c 8 then 1 else 2

outcome_of_exit-exit_outcome :
    (w : Wait) (rc : ℕ) → outcome_of_exit rc (is_timeout w) ≡ exit_outcome w rc
unfolding outcome_of_exit
outcome_of_exit-exit_outcome w zero = refl
outcome_of_exit-exit_outcome wait_timeout (suc c) = ground arith
outcome_of_exit-exit_outcome wait_object_0 (suc c) = ground arith
outcome_of_exit-exit_outcome wait_failed (suc c) = ground arith

module _ (test : Item) (sys : System) (r : Report) where
  abbrev pub Outcome : Type 0
  Outcome = Run (Option (ℕ × Report))

  -- An internal error, reported with the name of the first call that failed; or the rest.
  abbrev pub judged_calls : Option Bytes → Outcome → Outcome
  judged_calls none rest = rest
  judged_calls (some name) rest = done (
      some (
        2,
        report_test_done test 2 (some (take 8190 (name ++ codes " failed: unknown reason."))) none
            none r,
      ))

  -- the calls one behind the other, and then the rest
  abbrev checks : List Call → Outcome → Outcome
  checks [] rest = rest
  checks ((okay, name) ∷ calls) rest = check test sys okay name r (checks calls rest)

  checks-judged_calls :
      (calls : List Call) (rest : Outcome)
      → checks calls rest ≡ judged_calls (first_failed calls) rest
  unfolding check report_func_fail
  checks-judged_calls [] rest = refl
  checks-judged_calls ((true, name) ∷ calls) rest = checks-judged_calls calls rest
  checks-judged_calls ((false, name) ∷ calls) rest = refl

  checks-append :
      (cs ds : List Call) (rest : Outcome) → checks (cs ++ ds) rest ≡ checks cs (checks ds rest)
  checks-append [] ds rest = refl
  checks-append ((okay, name) ∷ cs) ds rest =
      ap (check test sys okay name r) (checks-append cs ds rest)

  -- What is reported when all calls succeed: the captured output, with the outcome of the exit code.
  abbrev pub captured_end : Outcome
  captured_end =
      report_captured test (exit_outcome sys.first_wait sys.exit_code)
        (read_test_output_on_background output_buffer_size sys (cleared_output output_buffer_size))
        r

  abbrev waited_end : Bool → Outcome
  waited_end timed_out =
      report_captured test (outcome_of_exit sys.exit_code timed_out)
        (read_test_output_on_background output_buffer_size sys (cleared_output output_buffer_size))
        r

  waiting-checks :
      wait_for_process test sys r ≡ checks (waiting sys ++ ending_calls sys) captured_end
  unfolding wait_for_process finish_test
  waiting-checks =
      let captured : waited_end (is_timeout sys.first_wait) ≡ captured_end =
        ap
          (λ o.
            report_captured test o
              (read_test_output_on_background output_buffer_size sys
                (cleared_output output_buffer_size))
              r)
          (outcome_of_exit-exit_outcome sys.first_wait sys.exit_code) in
      branches ∙ ap (checks (waiting sys ++ ending_calls sys)) captured
    where
      branches :
          wait_for_process test sys r
          ≡ checks (waiting sys ++ ending_calls sys) (waited_end (is_timeout sys.first_wait))
      branches = elim (Bool-cases (is_timeout sys.first_wait)) [
        | inl e ↦ rw e refl
        | inr e ↦ rw e refl
      ]

  run_process-judged_calls :
      run_process test sys r ≡ judged_calls (first_failed (calls_of sys)) captured_end
  unfolding run_process
  run_process-judged_calls =
      ap (checks (starting_calls sys)) waiting-checks
      ∙ sym (checks-append (starting_calls sys) (waiting sys ++ ending_calls sys) captured_end)
      ∙ checks-judged_calls (calls_of sys) captured_end

-- On Windows a test ends at the first call that fails: it is reported once, with the outcome 2 of
-- an internal error and a message with the name of that call, and that outcome is returned; the
-- calls for a process that timed out count only then. When all succeed, what the reader thread
-- captured is reported: as a pass for the exit code 0, as a failure for 1 to 9 of a process that
-- did not time out, and else as an internal error.
pub run_test_forking-judged_calls :
    (test : Item) (sys : System) (r : Report)
    → (let begun = report_test_start test r in
        run_test_forking test sys r
        ≡ judged_calls test sys begun (first_failed (calls_of sys)) (captured_end test sys begun))
unfolding run_test_forking
run_test_forking-judged_calls test sys r =
    run_process-judged_calls test sys (report_test_start test r)
