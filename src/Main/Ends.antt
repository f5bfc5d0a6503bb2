-- ===== src/Main/Ends.antt =====
-- src/main.c: the outcomes of src/internal.h, and the ways a step of the program ends.
use pcut.Common.{ℕ, Run, done, out_of_fuel}
use pcut.Item.{Addr}
use pcut.Report.State.{Report}
use pcut.TestRun.{World, Result, finished, exits, is_undefined, is_spent}

-- PCUT_OUTCOME_*
abbrev pub outcome_pass : ℕ
outcome_pass = 0

abbrev pub outcome_fail : ℕ
outcome_fail = 1

abbrev pub outcome_bad_invocation : ℕ
outcome_bad_invocation = 3

-- A step of the program: it goes on with a value, or ends the process with a code.
pub data Exec (U : Type 0) (A : Type 0) : Type 0 where
  goes : A → World U → Exec U A
  ends : ℕ → World U → Exec U A
  has_fault : Exec U A
  lacks_fuel : Exec U A

-- PCUT_RUN_MODE_*
pub data RunMode : Type 0 where
  forking single : RunMode

-- `pcut_run_test_forking` and `pcut_run_test_single`
abbrev pub Runner : Type 0 → Type 0
Runner U = RunMode → Addr → World U → Result U

module _ {U : Type 0} where
  infixl 5 ◌>>=◌
  abbrev pub ◌>>=◌ : {A B : Type 0} → Exec U A → (A → World U → Exec U B) → Exec U B
  goes a w >>= f = f a w
  ends c w >>= f = ends c w
  has_fault >>= f = has_fault
  lacks_fuel >>= f = lacks_fuel

  abbrev pub from_run : {A : Type 0} → World U → Run A → Exec U A
  from_run w (done a) = goes a w
  from_run w out_of_fuel = lacks_fuel

  abbrev pub from_result : Result U → Exec U ℕ
  from_result (finished rc w) = goes rc w
  from_result (exits c w) = ends c w
  from_result is_undefined = has_fault
  from_result is_spent = lacks_fuel

  abbrev pub set_report : World U → Report → World U
  set_report w r = record w { report = r }
