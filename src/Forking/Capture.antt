-- ===== src/Forking/Capture.antt =====
-- `pcut_run_test_forking` of src/os/unix.c, up to the report.
use pcut.Common.{
  ℕ, suc, ◌+◌, ◌-◌, ◌≤◌, ◌<◌, ◌≡◌, sym, ap, ◌∙◌, false, none, some, List, [], ◌++◌, Bytes, arith,
  length, drop, done, replicate,
}
use pcut.Item.{Item}
use pcut.Output.Parse.{zeros}
use pcut.Output.RoundTrip.{Chunk, render, plain_text, message_lines, NoNuls}
use pcut.Report.{report_test_start, report_test_done}
use pcut.Report.State.{Report}
use pcut.Forking.{System, capture, convert_wait_status_to_outcome, run_test_forking}
use pcut.Output.Newline.{
  without_newline, trim, render-trim, message_lines-trim, NoNuls-trim, length-trim,
  length-without_newline,
}
use pcut.Forking.Trimmed.{capture_steps, capture-without, report_captured-rendered}
use pcut.Forking.Reading.{joined, AllArrive, ends_line, read_all-joined, drop-replicate}

-- Standard output is written over standard error from the start of the buffer: it holds the
-- standard output, then what of the standard error is longer than it, and then zeros. The
-- conditions are that both fit the buffer together, that neither ends in a newline, and that no
-- read comes back empty before the end.
pub capture-overwritten :
    (size : ℕ) (sys : System)
    → AllArrive sys.stdout
    → AllArrive sys.stderr
    → length (joined sys.stderr) + length (joined sys.stdout) < size
    → ends_line (joined sys.stdout) ≡ false
    → ends_line (joined sys.stderr) ≡ false
    → (let out = joined sys.stdout in
        let err = joined sys.stderr in
        capture size sys ≡ out ++ drop (length out) (err ++ zeros (size - length err)))
capture-overwritten size sys a b l e f =
    let out = joined sys.stdout in
    let err = joined sys.stderr in
    let first : Bytes = replicate size 0 in
    capture_steps size sys (err ++ drop (length err) first) _ (length err) _
      (read_all-joined sys.stderr first (size - 1) b (omega arith) f)
      (read_all-joined sys.stdout (err ++ drop (length err) first) (size - 1 - length err) a
        (omega arith) e)
    ∙ ap (λ x. out ++ drop (length out) (err ++ x)) (drop-replicate (length err) size 0)

-- What the process of a test wrote to its standard output is reported: all text as extra output,
-- without a newline at the very end of the output, and the failure messages as the error message,
-- with the outcome of its exit status. The conditions are that pipes and process are made,
-- standard error stays empty, no read comes back empty before the end, text and messages hold no
-- NUL, each of the two is shorter than 4096 bytes, and all output is at most 8190 bytes long.
pub run_test_forking-reported :
    (sys : System) (cs : List Chunk) (test : Item) (r : Report)
    → sys.first_pipe_fails ≡ false
    → sys.second_pipe_fails ≡ false
    → sys.fork_fails ≡ false
    → sys.stderr ≡ []
    → AllArrive sys.stdout
    → joined sys.stdout ≡ render cs
    → NoNuls cs
    → length (plain_text cs) < 4096
    → length (message_lines cs) < 4096
    → length (render cs) ≤ 8190
    → (let outcome = convert_wait_status_to_outcome sys.status in
        run_test_forking sys test r
        ≡ done (
            some (
              outcome,
              report_test_done test outcome
                  (some (message_lines cs))
                  none
                  (some (plain_text (trim cs)))
                  (report_test_start test r),
            )))
unfolding run_test_forking
run_test_forking-reported sys cs test r p q f quiet a out nn lp lm lr =
    let ts = trim cs in
    let shorter = length-without_newline (render cs) in
    let text : without_newline (joined sys.stdout) ≡ render ts =
      ap without_newline out ∙ sym (render-trim cs) in
    let size : length (render ts) ≤ 8190 =
      omega (arith, ap (λ b. length b) (render-trim cs), shorter, lr) in
    let captured : capture 8192 sys ≡ render ts ++ zeros (8192 - length (render ts)) =
      rw text at (capture-without 8192 sys quiet a (rw out (omega arith))) in
    let outcome = convert_wait_status_to_outcome sys.status in
    let behind : 8192 - length (render ts) ≡ suc (suc (8190 - length (render ts))) = omega arith in
    let messages = message_lines-trim cs in
    rw (p, q, f, captured, behind)
      (rw messages at (
        report_captured-rendered ts (8190 - length (render ts)) outcome test
          (report_test_start test r) (NoNuls-trim cs nn) (omega (arith, length-trim cs))
          (rw messages lm)))
