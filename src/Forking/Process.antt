-- ===== src/Forking/Process.antt =====
-- `pcut_run_test_forking` of src/os/unix.c with its child: the process of the test runs
-- `pcut_run_test_forked` on a copy of the memory and exits with the outcome.
--
-- The system is a parameter, a `Machine` for each test.
use pcut.Common.{
  ℕ, suc, ◌≤◌, ◌<◌, ◌≡◌, refl, ap, ◌∙◌, Bool, true, false, not, ◌&&◌, if◌then◌else◌, Option, none,
  some, List, [], Bytes, length, Run, done, out_of_fuel,
}
use pcut.Item.{Addr, Func, Item, Store}
use pcut.Output.RoundTrip.{render, plain_text, message_lines, NoNuls}
use pcut.Output.Newline.{trim}
use pcut.Report.{report_test_start, report_test_done}
use pcut.Report.State.{Report, print}
use pcut.TestRun.{
  Called, World, Result, finished, is_undefined, is_spent, run_test_forked, find_parent_suite,
  SuitePtr, suite_item,
}
use pcut.TestRun.Story.{Story, story, verdict, outcome}
use pcut.TestRun.Single.{idle}
use pcut.TestRun.Forked.{child_exit, chunks, run_test_forked-story}
use pcut.Forking.{System, Status, exited, run_test_forking, convert_wait_status_to_outcome}
use pcut.Forking.Reading.{joined, AllArrive}
use pcut.Forking.Capture.{run_test_forking-reported}

-- A story that the buffers of the reporting process can hold.
pub record Fits {U : Type 0} (st : Story U) : Type 0 where
  pub no_nuls : NoNuls (chunks st)
  pub text : length (plain_text (chunks st)) < 4096
  pub messages : length (message_lines (chunks st)) < 4096
  pub all : length (render (chunks st)) ≤ 8190

convert-outcome :
    (b t : Option Bytes) → convert_wait_status_to_outcome (exited (outcome b t)) ≡ outcome b t
unfolding convert_wait_status_to_outcome
convert-outcome none none = refl
convert-outcome none (some t) = refl
convert-outcome (some b) t = refl

-- What the system does with a test: whether `pipe` and `fork` fail, how the pipe hands out what the
-- process wrote to it, what else arrives on its standard error, and what is told of its exit code; an alarm
-- is a signal instead.
pub record Machine : Type 0 where
  pub first_pipe_fails : Bool
  pub second_pipe_fails : Bool
  pub fork_fails : Bool
  pub strerror : Bytes
  pub stdout : Bytes → List Bytes
  pub stderr : List Bytes
  pub status : ℕ → Status

-- All calls succeed, the output arrives, no read comes back empty before the end, nothing else arrives, and
-- no alarm comes.
pub record Works (m : Machine) : Type 0 where
  pub first_pipe : m.first_pipe_fails ≡ false
  pub second_pipe : m.second_pipe_fails ≡ false
  pub fork : m.fork_fails ≡ false
  pub entire : (b : Bytes) → joined (m.stdout b) ≡ b
  pub arrives : (b : Bytes) → AllArrive (m.stdout b)
  pub quiet : m.stderr ≡ []
  pub exits : (code : ℕ) → m.status code ≡ exited code

-- The system as the reporting process meets it, with the exit code and the output of the child.
abbrev pub system_of : Machine → ℕ → Bytes → System
system_of m code out = record {
  first_pipe_fails = m.first_pipe_fails;
  second_pipe_fails = m.second_pipe_fails;
  fork_fails = m.fork_fails;
  strerror = m.strerror;
  stdout = m.stdout out;
  stderr = m.stderr;
  status = m.status code;
}

abbrev has_child : Machine → Bool
has_child m = not m.first_pipe_fails && not m.second_pipe_fails && not m.fork_fails

has_child-Works : (m : Machine) → Works m → has_child m ≡ true
has_child-Works m w = simp (w.first_pipe, w.second_pipe, w.fork)

module _ (machines : Addr → Machine) where
  module _ {U : Type 0} (call : Func → U → Called U) where
    -- The child starts with nothing in its standard output.
    abbrev pub child_world : World U → World U
    child_world w = record w { report = record (w.report) { out = [] } }

    abbrev reported : World U → Run (Option (ℕ × Report)) → Result U
    reported w out_of_fuel = is_spent
    reported w (done none) = is_undefined
    reported w (done (some r)) = finished r.0 (record w { report = r.1 })

    -- The parent, and the child when it is made.
    unfoldable pub fork_test : ℕ → Addr → World U → Result U
    fork_test n test w =
        let parent : ℕ → Bytes → Result U = λ code out.
          reported w
            (run_test_forking (system_of (machines test) code out) (w.store test) w.report) in
        let both : Result U = elim (child_exit (run_test_forked call n test (child_world w))) [
          | none ↦ is_undefined
          | some end ↦ parent end.0 end.1.out
        ] in
        if has_child (machines test) then both else parent 0 []

    module _ (works : (a : Addr) → Works (machines a)) where
      -- The process of a test runs on a copy of the memory; the process that reports it gets the
      -- verdict of its story as the outcome, reports all its messages as the error message and all
      -- its text as extra output, without a newline at the very end of its output, and is
      -- otherwise as it was. The conditions are that the test has a function, that its suite is
      -- found with the fuel given, that no message is left from before, that the story holds no
      -- NUL and fits the buffers, and that the system makes pipes and processes, delivers what is
      -- written to the standard output, no read coming back empty before the end, tells the exit
      -- code, and has nothing on the standard error.
      pub fork_test-story :
          (k : ℕ) (h : Store) (a f : ℕ) (sp : SuitePtr) (s : Item) (w : World U)
          → (h a).test_func ≡ some f
          → find_parent_suite (suc (suc k)) h (some a) ≡ done sp
          → suite_item h sp ≡ some s
          → w.run.prev_message ≡ none
          → Fits (story call s f w.user)
          → fork_test (suc (suc k)) a (record w { store = h }) ≡ (
              let st = story call s f w.user in
              finished (verdict st) (record w {
                store = h;
                report =
                    report_test_done
                      (h a)
                      (verdict st)
                      (some (message_lines (chunks st)))
                      none
                      (some (plain_text (trim (chunks st))))
                      (report_test_start (h a) w.report);
              }))
      unfolding fork_test print run_test_forked report_test_done
      fork_test-story k h a f sp s w tf parent suite e fits =
          let st = story call s f w.user in
          let same : record w { store = h; report = record (w.report) { out = [] } }
              ≡ idle h w.run (record (w.report) { out = [] }) w.user =
            ap
              (λ m. record w {
                store = h;
                run = record (w.run) { prev_message = m };
                report = record (w.report) { out = [] };
              })
              e in
          let child =
            ap (λ v. child_exit (run_test_forked call (suc (suc k)) a v)) same
            ∙ run_test_forked-story call k h a f sp s w.run (record (w.report) { out = [] }) w.user
                tf parent suite in
          let out = render (chunks st) in
          let m = works a in
          let parent_end =
            run_test_forking-reported (system_of (machines a) (verdict st) out) (chunks st) (h a)
              w.report m.first_pipe m.second_pipe m.fork m.quiet (m.arrives out) (m.entire out)
              fits.no_nuls fits.text fits.messages fits.all in
          let code =
            ap convert_wait_status_to_outcome (m.exits (verdict st))
            ∙ convert-outcome st.body.message st.teardown.message in
          let made : has_child (machines a) ≡ true = has_child-Works (machines a) m in
          rw (made, child, parent_end, code) refl
