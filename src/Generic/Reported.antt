-- ===== src/Generic/Reported.antt =====
-- `pcut_run_test_forking` of src/os/generic.c: what of the temporary file is reported.
use pcut.Common.{
  ℕ, suc, ◌-◌, ◌≤◌, ◌<◌, ◌≡◌, ◌≢◌, refl, ap, ◌∙◌, false, none, some, List, [], ◌++◌, Bytes, arith,
  append-nil, length, take, done, ◌==◌, length-take,
}
use pcut.Item.{Item}
use pcut.Output.{last_byte, parse_command_output, cleared, parsed}
use pcut.Output.Parse.{zeros}
use pcut.Output.RoundTrip.{Chunk, render, plain_text, message_lines, NoNuls}
use pcut.Report.{report_test_start, report_test_done, report_test_done_unparsed, report_parsed}
use pcut.Report.State.{Report}
use pcut.Forking.{cleared_output, report_captured}
use pcut.Forking.Reading.{take-all, drop-replicate}
use pcut.Forking.Trimmed.{report_captured-rendered}
use pcut.Generic.{
  System, convert_wait_status_to_outcome, format_temp_filename, format_command, read_file,
  run_test_forking,
}

-- A file that fits stands before the zero bytes of the cleared buffer.
pub read_file-fits :
    (size : ℕ) (content : Bytes)
    → length content ≤ size
    → read_file size content ≡ content ++ zeros (size - length content)
unfolding read_file cleared_output
read_file-fits size content l =
    rw (take-all size content l) (ap (λ u. content ++ u) (drop-replicate (length content) size 0))

-- A file that is too long fills the buffer.
pub read_file-full :
    (size : ℕ) (content : Bytes)
    → size ≤ length content
    → read_file size content ≡ take size content
unfolding read_file cleared_output
read_file-full size content l =
    let e : length (take size content) ≡ size = omega (arith, l, length-take size content) in
    rw e (
      ap (λ u. take size content ++ u) (drop-replicate size size 0)
      ∙ (let z : size - size ≡ 0 = omega arith in rw z (append-nil (take size content))))

pub file_reported :
    (cs : List Chunk) (outcome : ℕ) (test : Item) (r : Report)
    → NoNuls cs
    → length (plain_text cs) < 4096
    → length (message_lines cs) < 4096
    → length (render cs) ≤ 8190
    → report_captured test outcome (read_file 8192 (render cs)) r
      ≡ done (
          some (
            outcome,
            report_test_done test outcome (some (message_lines cs)) none (some (plain_text cs)) r,
          ))
file_reported cs outcome test r nn lp lm l =
    let behind : 8192 - length (render cs) ≡ suc (suc (8190 - length (render cs))) = omega arith in
    rw (read_file-fits 8192 (render cs) (omega arith), behind)
      (report_captured-rendered cs (8190 - length (render cs)) outcome test r nn lp lm)

not_zero : (b : ℕ) → b ≢ 0 → (b == 0) ≡ false
not_zero b ne = ground arith

unparsed :
    (out : Bytes) (b n m : ℕ)
    → last_byte out ≡ some b
    → (b == 0) ≡ false
    → parse_command_output out n m ≡ done (parsed (cleared n m))
unfolding parse_command_output
unparsed out b n m e f = rw (e, parse_command_output, f) refl

pub unterminated_lost :
    (content : Bytes) (b outcome : ℕ) (test : Item) (r : Report)
    → 8192 ≤ length content
    → last_byte (take 8192 content) ≡ some b
    → b ≢ 0
    → report_captured test outcome (read_file 8192 content) r
      ≡ done (some (outcome, report_test_done test outcome (some []) none (some []) r))
unfolding report_captured report_test_done_unparsed report_parsed
unterminated_lost content b outcome test r l e ne =
    let ne' : (b == 0) ≡ false = not_zero b ne in
    rw (read_file-full 8192 content l, unparsed (take 8192 content) b 4096 4096 e ne') refl

-- What the process of a test wrote to the temporary file is reported: all text as extra output,
-- and the failure messages as the error message, with the outcome of the value of `system`. The
-- conditions are that the file can be opened, that text and messages hold no NUL and each of the
-- two is shorter than 4096 bytes, and that all output is at most 8190 bytes long.
pub run_test_forking-file_reported :
    (error_outcome : ℕ) (sys : System) (self_path : Bytes) (cs : List Chunk) (test : Item)
    (r : Report)
    → sys.tempfile
        (format_command self_path test (format_temp_filename sys.pid))
        (format_temp_filename sys.pid)
      ≡ some (render cs)
    → NoNuls cs
    → length (plain_text cs) < 4096
    → length (message_lines cs) < 4096
    → length (render cs) ≤ 8190
    → (let outcome =
          convert_wait_status_to_outcome
            (sys.system (format_command self_path test (format_temp_filename sys.pid))) in
        run_test_forking error_outcome sys self_path test r
        ≡ done (
            some (
              outcome,
              report_test_done test outcome
                  (some (message_lines cs))
                  none
                  (some (plain_text cs))
                  (report_test_start test r),
            )))
unfolding run_test_forking
run_test_forking-file_reported error_outcome sys self_path cs test r f nn lp lm l =
    let outcome =
      convert_wait_status_to_outcome
        (sys.system (format_command self_path test (format_temp_filename sys.pid))) in
    rw (f, run_test_forking) (file_reported cs outcome test (report_test_start test r) nn lp lm l)

-- When the temporary file has at least 8192 bytes and the last byte that is read is not zero, all
-- that the test printed is lost, its failure messages as well: the test is reported with an empty
-- message and empty extra output. The other condition is that the file can be opened.
pub run_test_forking-long_file_lost :
    (error_outcome : ℕ) (sys : System) (self_path content : Bytes) (b : ℕ) (test : Item)
    (r : Report)
    → sys.tempfile
        (format_command self_path test (format_temp_filename sys.pid))
        (format_temp_filename sys.pid)
      ≡ some content
    → 8192 ≤ length content
    → last_byte (take 8192 content) ≡ some b
    → b ≢ 0
    → (let outcome =
          convert_wait_status_to_outcome
            (sys.system (format_command self_path test (format_temp_filename sys.pid))) in
        run_test_forking error_outcome sys self_path test r
        ≡ done (
            some (
              outcome,
              report_test_done test outcome (some []) none (some []) (report_test_start test r),
            )))
unfolding run_test_forking
run_test_forking-long_file_lost error_outcome sys self_path content b test r f l e ne =
    let outcome =
      convert_wait_status_to_outcome
        (sys.system (format_command self_path test (format_temp_filename sys.pid))) in
    rw (f, run_test_forking)
      (unterminated_lost content b outcome test (report_test_start test r) l e ne)
