-- ===== src/Main/Loop.antt =====
-- src/main.c: the end of `pcut_main`, which runs the whole thing.
use pcut.Common.{ℕ, zero, suc, none, some, ◌==◌, if◌then◌else◌}
use pcut.Item.{Ptr, is_testsuite}
use pcut.Items.{get_real_next}
use pcut.Report.{report_init, report_done}
use pcut.TestRun.{World}
use pcut.Main.Ends.{
  outcome_pass, Exec, goes, lacks_fuel, Runner, RunMode, ◌>>=◌, from_run, set_report,
}
use pcut.Main.Suite.{run_suite}

module _ {U : Type 0} (runner : Runner U) where
  -- The loop that runs the whole thing.
  unfoldable pub run_loop : RunMode → ℕ → ℕ → Ptr → ℕ → World U → Exec U ℕ
  unfolding run_suite
  run_loop mode f n none rc w = goes rc w
  run_loop mode f zero (some it) rc w = lacks_fuel
  run_loop mode f (suc n) (some it) rc w =
      (if is_testsuite (w.store it).kind
        then run_suite runner mode f it w
        else (from_run w (get_real_next f w.store (some it)) >>= λ next. goes (next, outcome_pass)))
      >>= λ r w'. run_loop mode f n r.0 (if r.1 == outcome_pass then rc else r.1) w'

  unfoldable pub run_all : RunMode → ℕ → Ptr → World U → Exec U ℕ
  unfolding run_loop
  run_all mode n items w = from_run w (report_init n w.store items w.report) >>= λ r w₁.
      run_loop mode n n items outcome_pass (set_report w₁ r) >>= λ rc w₂.
      goes rc (set_report w₂ (report_done w₂.report))
