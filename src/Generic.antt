-- ===== src/Generic.antt =====
-- src/os/generic.c: running one test by system(), with its output in a temporary file.
--
-- The system is a parameter: what `system` returns, and what the file holds when it can be opened.
-- TEST_OUTCOME_ERROR is defined nowhere in the repository and is a parameter as well.
pub mod Reported
use pcut.Common.{
  ℕ, ◌-◌, Option, none, some, List, [], ◌∷◌, ◌++◌, ℤ, pos, negsuc, Bytes, codes, ◌==◌,
  if◌then◌else◌, length, take, drop, Run, done, decimal_int,
}
use pcut.Item.{Item}
use pcut.Report.{report_test_start, report_test_done}
use pcut.Report.State.{Report}
use pcut.Forking.{output_buffer_size, outcome_internal_error, cleared_output, report_captured}

-- `convert_wait_status_to_outcome`
unfoldable pub convert_wait_status_to_outcome : ℤ → ℕ
convert_wait_status_to_outcome (negsuc n) = outcome_internal_error
convert_wait_status_to_outcome (pos n) = if n == 0 then 0 else 1

-- FORMAT_TEMP_FILENAME and FORMAT_COMMAND of the Unix variant, cut off as `pcut_snprintf` does.
unfoldable pub format_temp_filename : ℤ → Bytes
unfolding decimal_int
format_temp_filename pid = take 126 (codes "pcut_" ++ (decimal_int pid ++ codes ".tmp"))

unfoldable pub format_command : Bytes → Item → Bytes → Bytes
unfolding decimal_int
format_command self_path test temp_file =
    take 254 (self_path ++ (codes " -t" ++ (decimal_int test.id ++ (codes " &>" ++ temp_file))))

pub record System : Type 0 where
  pub pid : ℤ
  pub system : Bytes → ℤ
  pub tempfile : Bytes → Bytes → Option Bytes

-- `fread` into the cleared buffer
unfoldable pub read_file : ℕ → Bytes → Bytes
unfolding cleared_output
read_file size content =
    let got = take size content in got ++ drop (length got) (cleared_output size)

-- `pcut_run_test_forking`
unfoldable pub run_test_forking : ℕ → System → Bytes → Item → Report → Run (Option (ℕ × Report))
run_test_forking test_outcome_error sys self_path test r =
    let r₁ = report_test_start test r in
    let tempfile_name = format_temp_filename sys.pid in
    let command = format_command self_path test tempfile_name in
    let outcome = convert_wait_status_to_outcome (sys.system command) in
    elim (sys.tempfile command tempfile_name) [
      | none ↦ done (
          some (
            outcome_internal_error,
            report_test_done test test_outcome_error (some (codes "Failed to open temporary file."))
                none none r₁,
          ))
      | some content ↦ report_captured test outcome (read_file output_buffer_size content) r₁
    ]
