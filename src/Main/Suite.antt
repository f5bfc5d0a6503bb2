-- ===== src/Main/Suite.antt =====
-- src/main.c: `run_suite`.
use pcut.Common.{ℕ, zero, suc, ◌+◌, Bool, true, false, none, some, ltb, ◌==◌, if◌then◌else◌}
use pcut.Item.{Addr, Ptr, is_testsuite, is_test}
use pcut.Items.{get_real_next}
use pcut.Report.{report_suite_start, report_suite_done}
use pcut.TestRun.{World}
use pcut.Main.Ends.{
  outcome_pass, outcome_fail, Exec, goes, lacks_fuel, Runner, RunMode, ◌>>=◌, from_run, from_result,
  set_report,
}

-- The local variables of the loop.
pub record Progress : Type 0 where
  pub is_first_test : Bool
  pub total_count : ℕ
  pub ret_code : ℕ

module _ {U : Type 0} (runner : Runner U) (mode : RunMode) where
  -- The part of a round behind the tests of the kind.
  unfoldable pub run_item : (suite it : Addr) → Progress → World U → Exec U Progress
  run_item suite it s w =
      let w₁ =
        if s.is_first_test then set_report w (report_suite_start (w.store suite) w.report) else w in
      from_result (runner mode it w₁) >>= λ ret_code_tmp. goes (record {
        is_first_test = false;
        total_count = s.total_count + 1;
        ret_code = if ret_code_tmp == outcome_pass then s.ret_code else outcome_fail;
      })

  -- The loop; its value is the item at `leave_ok` with the variables.
  unfoldable pub suite_loop : ℕ → ℕ → Addr → Ptr → Progress → World U → Exec U (Ptr × Progress)
  unfolding run_item
  suite_loop f n suite none s w = goes (none, s) w
  suite_loop f zero suite (some it) s w = lacks_fuel
  suite_loop f (suc n) suite (some it) s w =
      let round =
        (if is_test (w.store it).kind then run_item suite it s w else goes s w) >>= λ s' w'.
        from_run w' (get_real_next f w'.store (some it)) >>= λ next w''.
        suite_loop f n suite next s' w'' in
      if is_testsuite (w.store it).kind then goes (some it, s) w else round

  -- `run_suite`; its value is `*last` with the return code.
  unfoldable pub leave_ok : Addr → Ptr × Progress → World U → Exec U (Ptr × ℕ)
  leave_ok suite end w =
      goes (end.0, end.1.ret_code)
        (if ltb 0 end.1.total_count
          then set_report w (report_suite_done (w.store suite) w.report)
          else w)

  unfoldable pub run_suite : ℕ → Addr → World U → Exec U (Ptr × ℕ)
  unfolding suite_loop leave_ok
  run_suite f suite w =
      let start : Progress = record {
        is_first_test = true;
        total_count = 0;
        ret_code = outcome_pass;
      } in
      from_run w (get_real_next f w.store (some suite)) >>= λ first w₁. elim first [
        | none ↦ goes (none, outcome_pass) w₁
        | some it ↦
            if is_testsuite (w₁.store it).kind
            then goes (some it, outcome_pass) w₁
            else suite_loop f f suite (some it) start w₁ >>= leave_ok suite
      ]
