-- ===== src/Windows/Reading.antt =====
-- src/os/windows.c and src/os/unix.c read the output of a test in the same way.
use pcut.Common.{
  false, ℕ, ◌-◌, ◌≡◌, refl, ap, ◌∙◌, Option, none, some, List, [], ◌∷◌, ◌++◌, Bytes, length, take,
  drop,
}
use pcut.Forking
use pcut.Forking.{cleared_output, capture, strip_newline}
use pcut.Windows
use pcut.Windows.{read_test_output_on_background}

-- What arrives before a read that fails.
abbrev pub until_failure : List (Option Bytes) → List Bytes
until_failure [] = []
until_failure (none ∷ offers) = []
until_failure (some offer ∷ offers) = offer ∷ until_failure offers

-- The same test on Unix, as far as its output goes.
abbrev pub as_unix : Windows.System → Forking.System
as_unix sys = record {
  first_pipe_fails = false;
  second_pipe_fails = false;
  fork_fails = false;
  strerror = [];
  stdout = until_failure sys.stdout;
  stderr = until_failure sys.stderr;
  status = Forking.exited sys.exit_code;
}

read_loop-until_failure :
    (offers : List (Option Bytes)) (size : ℕ)
    → Windows.read_loop offers size ≡ Forking.read_loop (until_failure offers) size
unfolding Windows.read_loop Forking.read_loop
read_loop-until_failure [] size = refl
read_loop-until_failure (none ∷ offers) size = refl
read_loop-until_failure (some offer ∷ offers) size =
    rw (read_loop-until_failure offers (size - length (take size offer))) refl

read_all-until_failure :
    (offers : List (Option Bytes)) (buffer : Bytes) (size : ℕ)
    → Windows.read_all offers buffer size ≡ Forking.read_all (until_failure offers) buffer size
unfolding Windows.read_all Forking.read_all
read_all-until_failure offers buffer size =
    ap
      (λ (b : Bytes).
        ((strip_newline b).0 ++ drop (length (strip_newline b).0) buffer, (strip_newline b).1))
      (read_loop-until_failure offers size)

-- The reader thread of Windows leaves in the buffer what the code of Unix does for the same
-- output, up to the first read that fails.
pub read_test_output_on_background-capture :
    (size : ℕ) (sys : Windows.System)
    → read_test_output_on_background size sys (cleared_output size) ≡ capture size (as_unix sys)
unfolding read_test_output_on_background capture
read_test_output_on_background-capture size sys =
    ap (λ (r : Bytes × ℕ). (Windows.read_all sys.stdout r.0 (size - 1 - r.1)).0)
      (read_all-until_failure sys.stderr (cleared_output size) (size - 1))
    ∙ ap (λ (r : Bytes × ℕ). r.0) (read_all-until_failure sys.stdout _ _)
