-- ===== src/Main.antt =====
-- src/main.c: the command line and the main loop.
--
-- A step of the program is an `Exec`. The ways to run a test and the hooks of the user are
-- parameters. An `int` that counts tests is a number.
pub mod Ends
pub mod Find
pub mod Suite
pub mod Loop
pub mod Callbacks
pub mod Ids
pub mod Members
pub mod Judged
pub mod Whole
pub mod Stories
pub mod Tally
pub mod Verdicts
pub mod Written
pub mod WrittenXml
pub mod SameText
pub mod Counters
pub mod Program
pub mod Numbered
pub mod Declared
pub mod Forks
pub mod Selected
pub mod OneSuite
pub mod ListOnly
pub mod Plain
pub mod Cases
pub mod Prepared
pub mod Ran
pub mod Static
pub mod InProcess
pub mod StaticXml
pub mod FromMacros
pub mod Collected
use pcut.Common.{
  ℕ, zero, suc, Bool, true, false, ◌&&◌, Option, none, some, List, [], ◌∷◌, ℤ, pos, negsuc,
  is_nonneg, is_positive, Bytes, codes, ◌==◌, if◌then◌else◌,
}
use pcut.Item.{
  Addr, Ptr, Func, Item, MainExtra, report_xml_extra, preinit_hook_extra, init_hook_extra,
  main_extra_last, is_testsuite, is_test,
}
use pcut.Items.{get_real_next, fix_list}
use pcut.Report.{report_register_handler, report_init, report_done}
use pcut.Report.State.{tap_handler, xml_handler, print}
use pcut.TestRun.{World}
use pcut.Args.{str_equals, is_arg_with_number, print_tests}
use Ends.{
  outcome_pass, outcome_bad_invocation, Exec, goes, ends, has_fault, lacks_fuel, Runner, RunMode,
  forking, single, ◌>>=◌, from_run, from_result, set_report,
}
use Find.{find_by_id}
use Suite.{run_suite}
use Loop.{run_all}
use Callbacks.{set_setup_teardown_callbacks}

-- The local variables behind the options, and `pcut_run_mode`.
pub record Options : Type 0 where
  pub run_only_suite : ℤ
  pub run_only_test : ℤ
  pub run_mode : RunMode

-- `if (pcut_is_arg_with_number(…))`
abbrev or_old : Option ℤ → ℤ → ℤ
or_old none old = old
or_old (some n) old = n

module _ {U : Type 0} (runner : Runner U) (preinit_hook : Func → List Bytes → U → List Bytes × U)
    (init_hook : Func → U → U) where
  register : World U → World U
  register w = set_report w (report_register_handler xml_handler w.report)

  -- The first FOR_EACH_MAIN_EXTRA; its value is `argv`.
  unfoldable pub preinit_extras : List MainExtra → List Bytes → World U → Exec U (List Bytes)
  unfolding register
  preinit_extras [] argv w = goes argv w
  preinit_extras (e ∷ es) argv w = elim e.type [
    | main_extra_last ↦ goes argv w
    | report_xml_extra ↦ preinit_extras es argv (register w)
    | preinit_hook_extra ↦ elim e.preinit_hook [
      | none ↦ has_fault
      | some f ↦
          let r = preinit_hook f argv w.user in preinit_extras es r.0 (record w { user = r.1 })
    ]
    | init_hook_extra ↦ preinit_extras es argv w
  ]

  -- The second one.
  unfoldable pub init_extras : List MainExtra → World U → Exec U Bool
  init_extras [] w = goes true w
  init_extras (e ∷ es) w = elim e.type [
    | main_extra_last ↦ goes true w
    | report_xml_extra ↦ init_extras es w
    | preinit_hook_extra ↦ init_extras es w
    | init_hook_extra ↦ elim e.init_hook [
      | none ↦ has_fault
      | some f ↦ init_extras es (record w { user = init_hook f w.user })
    ]
  ]

  -- The loop over the arguments.
  unfoldable pub read_args : ℕ → Ptr → List Bytes → Options → World U → Exec U Options
  unfolding str_equals print_tests register print
  read_args n items [] o w = goes o w
  read_args n items (arg ∷ args) o w =
      let suite = or_old (is_arg_with_number arg (codes "-s")) o.run_only_suite in
      let test = or_old (is_arg_with_number arg (codes "-t")) o.run_only_test in
      let mode = if str_equals arg (codes "-u") then single else o.run_mode in
      let rest =
        read_args n items args
          (record { run_only_suite = suite; run_only_test = test; run_mode = mode })
          (if str_equals arg (codes "-x") then register w else w) in
      if str_equals arg (codes "-l")
      then (from_run w (print_tests n w.store items) >>= λ text w'. elim text [
        | none ↦ has_fault
        | some t ↦ ends outcome_pass (set_report w' (print t w'.report))
      ])
      else rest

  bad_invocation : Bytes → World U → Exec U ℕ
  bad_invocation text w = ends outcome_bad_invocation (set_report w (print text w.report))

  -- `run_only_suite > 0`
  unfoldable pub run_one_suite : ℕ → Ptr → Options → World U → Exec U ℕ
  unfolding bad_invocation
  run_one_suite n items o w =
      from_run w (find_by_id n w.store items o.run_only_suite) >>= λ suite w₁. elim suite [
        | none ↦ bad_invocation (codes "Suite not found, aborting!\n") w₁
        | some a ↦
            if is_testsuite (w₁.store a).kind
            then (run_suite runner o.run_mode n a w₁ >>= λ r w₂. goes outcome_pass w₂)
            else bad_invocation (codes "Invalid suite id!\n") w₁
      ]

  -- `run_only_test > 0`; `run_here` calls `pcut_run_test_single` or `pcut_run_test_forked`
  unfoldable pub run_one_test : Runner U → ℕ → Ptr → Options → World U → Exec U ℕ
  unfolding bad_invocation
  run_one_test run_here n items o w =
      from_run w (find_by_id n w.store items o.run_only_test) >>= λ test w₁. elim test [
        | none ↦ bad_invocation (codes "Test not found, aborting!\n") w₁
        | some a ↦
            if is_test (w₁.store a).kind
            then from_result (run_here o.run_mode a w₁)
            else bad_invocation (codes "Invalid test id!\n") w₁
      ]

  -- From the message on the options on.
  unfoldable pub run_chosen : Runner U → ℕ → Ptr → Options → World U → Exec U ℕ
  unfolding bad_invocation run_one_suite run_one_test run_all
  run_chosen run_here n items o w =
      if is_nonneg o.run_only_suite && is_nonneg o.run_only_test
      then bad_invocation (codes "Specify either -s or -t!\n") w
      else if is_positive o.run_only_suite
      then run_one_suite n items o w
      else if is_positive o.run_only_test
      then run_one_test run_here n items o w
      else run_all runner o.run_mode n items w

  abbrev pub default_options : Options
  default_options = record {
    run_only_suite = negsuc 0;
    run_only_test = negsuc 0;
    run_mode = forking;
  }

  abbrev extras_of : Option (List MainExtra) → List MainExtra
  extras_of none = []
  extras_of (some es) = es

  abbrev arguments : List Bytes → List Bytes
  arguments [] = []
  arguments (name ∷ args) = args

  -- `pcut_main`; `d` bounds the nesting of the lists. `run_here` is the choice between
  -- `pcut_run_test_single` and `pcut_run_test_forked`.
  unfoldable pub pcut_main : Runner U → (d n : ℕ) → Addr → List Bytes → World U → Exec U ℕ
  unfolding fix_list preinit_extras read_args init_extras run_chosen
  pcut_main run_here d n last argv w = from_run w (fix_list n d w.store last) >>= λ r w₁.
      let w₂ : World U = record w₁ { store = r.1 } in
      let items : Ptr = some r.0 in
      let extras = extras_of (w₂.store last).main_extras in
      preinit_extras extras argv (set_report w₂ (report_register_handler tap_handler w₂.report))
      >>= λ argv' w₃. read_args n items (arguments argv') default_options w₃ >>= λ o w₄.
          from_run w₄ (set_setup_teardown_callbacks n w₄.store items) >>= λ h w₅.
          init_extras extras (record w₅ { store = h }) >>= λ ok w₆. run_chosen run_here n items o w₆
