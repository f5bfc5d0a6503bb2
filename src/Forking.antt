-- ===== src/Forking.antt =====
-- src/os/unix.c: running one test in a process of its own.
--
-- The system is a parameter: whether `pipe` and `fork` fail, what arrives on the two pipes, read by read,
-- and how the process ended, as the macros of sys/wait.h tell it. A `read` returns no more than the size it
-- is given. The alarm is a way for the process to end.
pub mod Reading
pub mod Trimmed
pub mod Capture
pub mod Process
use pcut.Common.{
  ℕ, suc, ◌-◌, Bool, true, false, Option, none, some, List, [], ◌∷◌, ◌++◌, Bytes, codes, ◌==◌,
  if◌then◌else◌, length, take, drop, replicate, Run, done, ◌>>=◌,
}
use pcut.Item.{Item}
use pcut.Report.{report_test_start, report_test_done, report_test_done_unparsed}
use pcut.Report.State.{Report}

-- OUTPUT_BUFFER_SIZE
abbrev pub output_buffer_size : ℕ
output_buffer_size = 8192

-- PCUT_OUTCOME_INTERNAL_ERROR
abbrev pub outcome_internal_error : ℕ
outcome_internal_error = 2

-- What the macros of sys/wait.h tell of a status: WEXITSTATUS, the signal, or the status itself.
pub data Status : Type 0 where
  exited : ℕ → Status
  signaled : ℕ → Status
  neither : ℕ → Status

-- `convert_wait_status_to_outcome`
unfoldable pub convert_wait_status_to_outcome : Status → ℕ
convert_wait_status_to_outcome (exited c) = if c == 0 then 0 else 1
convert_wait_status_to_outcome (signaled s) = outcome_internal_error
convert_wait_status_to_outcome (neither status) = status

-- The loop of `read_all`: the bytes that it stores. The list holds what each `read` has to offer.
unfoldable pub read_loop : List Bytes → ℕ → Bytes
read_loop [] buffer_size = []
read_loop (offer ∷ offers) buffer_size =
    let got = take buffer_size offer in
    let rest = read_loop offers (buffer_size - length got) in
    if length got == 0 then [] else if buffer_size - length got == 0 then got else got ++ rest

-- A newline at the end becomes a NUL that is not counted.
unfoldable pub strip_newline : Bytes → Bytes × ℕ
strip_newline [] = ([], 0)
strip_newline (b ∷ []) = if b == 10 then (0 ∷ [], 0) else (b ∷ [], 1)
strip_newline (b ∷ c ∷ bs) = let r = strip_newline (c ∷ bs) in (b ∷ r.0, suc r.1)

-- `read_all`: the buffer and the returned size.
unfoldable pub read_all : List Bytes → Bytes → ℕ → Bytes × ℕ
unfolding read_loop strip_newline
read_all offers buffer buffer_size =
    let r = strip_newline (read_loop offers buffer_size) in (r.0 ++ drop (length r.0) buffer, r.1)

-- The system as one run of `pcut_run_test_forking` meets it.
pub record System : Type 0 where
  pub first_pipe_fails : Bool
  pub second_pipe_fails : Bool
  pub fork_fails : Bool
  pub strerror : Bytes
  pub stdout : List Bytes
  pub stderr : List Bytes
  pub status : Status

-- `memset(extra_output_buffer, 0, OUTPUT_BUFFER_SIZE)`
unfoldable pub cleared_output : ℕ → Bytes
cleared_output size = replicate size 0

-- What `extra_output_buffer` holds behind the two calls of `read_all`; `size` is OUTPUT_BUFFER_SIZE.
unfoldable pub capture : ℕ → System → Bytes
unfolding read_all cleared_output
capture size sys =
    let r = read_all sys.stderr (cleared_output size) (size - 1) in
    (read_all sys.stdout r.0 (size - 1 - r.1)).0

-- `pcut_snprintf` with `OUTPUT_BUFFER_SIZE - 1`
abbrev pub pipe_failed : System → Bytes
pipe_failed sys =
    take (output_buffer_size - 2) (codes "pipe() failed: " ++ (sys.strerror ++ codes "."))

-- `pcut_report_test_done_unparsed` and the return of the outcome; `none` is a read outside a buffer.
unfoldable pub report_captured : Item → ℕ → Bytes → Report → Run (Option (ℕ × Report))
unfolding report_test_done_unparsed
report_captured test outcome buffer r = do
  x ← report_test_done_unparsed test outcome buffer r
  done (elim x [ none ↦ none | some r' ↦ some (outcome, r') ])

-- `pcut_run_test_forking`
unfoldable pub run_test_forking : System → Item → Report → Run (Option (ℕ × Report))
unfolding capture cleared_output report_captured convert_wait_status_to_outcome
run_test_forking sys test r =
    let r₁ = report_test_start test r in
    let failed = done (
      some (
        outcome_internal_error,
        report_test_done test outcome_internal_error (some (pipe_failed sys)) none none r₁,
      )) in
    if sys.first_pipe_fails
    then failed
    else if sys.second_pipe_fails
    then failed
    else if sys.fork_fails
    then report_captured test outcome_internal_error (cleared_output output_buffer_size) r₁
    else report_captured test (convert_wait_status_to_outcome sys.status)
        (capture output_buffer_size sys) r₁
