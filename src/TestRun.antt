-- ===== src/TestRun.antt =====
-- src/run.c: running one test with its set-up and tear-down functions.
--
-- The functions of the user are a parameter: a call prints a text and then returns, or fails an
-- assertion with a message. A function that does neither (it crashes or runs for ever) is not covered.
-- `exit` and `longjmp` are ways for a function to end. `pcut_failed_assertion` calls the tear-down
-- function, which may fail an assertion in turn: it runs on fuel, and two rounds are enough.
pub mod Story
pub mod Parent
pub mod Modes
pub mod Ending
pub mod Single
pub mod Forked
pub mod Captured
use pcut.Common.{
  ℕ, zero, suc, Bool, true, false, Option, none, some, List, [], ◌∷◌, ◌++◌, ℤ, negsuc, Bytes, codes,
  if◌then◌else◌, Run, done, out_of_fuel, ◌==◌,
}
use pcut.Item.{
  Addr, Ptr, Func, Item, Store, testsuite, is_testsuite, Extra, ExtraType, extra_timeout,
  extra_skip, extra_last,
}
use pcut.Output.{print_fail_message}
use pcut.Report.{report_test_start, report_test_done}
use pcut.Report.State.{Report, print}

-- What a call of a function of the user does.
pub data Called (U : Type 0) : Type 0 where
  returns : Bytes → U → Called U
  fails : Bytes → Bytes → U → Called U

-- A pointer to a suite: NULL, the NULL-like suite of run.c, or an item.
pub data SuitePtr : Type 0 where
  no_suite default_suite : SuitePtr
  suite_at : Addr → SuitePtr

-- The static variables of run.c.
pub record RunState : Type 0 where
  pub execute_teardown_on_failure : Bool
  pub report_test_result : Bool
  pub print_test_error : Bool
  pub leave_means_exit : Bool
  pub current_test : Ptr
  pub current_suite : SuitePtr
  pub prev_message : Option Bytes

pub record World (U : Type 0) : Type 0 where
  pub store : Store
  pub run : RunState
  pub report : Report
  pub user : U

-- How a function ends: by its return, by `longjmp`, by `exit`, by a call or a read through NULL, or
-- with the fuel used up.
pub data End (U : Type 0) : Type 0 where
  returned : World U → End U
  jumped : World U → End U
  exited : ℕ → World U → End U
  undefined : End U
  spent : End U

-- How `run_test` ends.
pub data Result (U : Type 0) : Type 0 where
  finished : ℕ → World U → Result U
  exits : ℕ → World U → Result U
  is_undefined : Result U
  is_spent : Result U

-- `init_default_suite_when_needed` gives `default_suite` these fields.
abbrev pub default_suite_item : Item
default_suite_item = record {
  previous = none;
  next = none;
  id = negsuc 0;
  kind = testsuite;
  name = codes "Default";
  test_func = none;
  setup_func = none;
  teardown_func = none;
  extras = [];
  main_extras = none;
  nested = none;
}

abbrev pub suite_item : Store → SuitePtr → Option Item
suite_item h no_suite = none
suite_item h default_suite = some default_suite_item
suite_item h (suite_at a) = some (h a)

unfoldable pub find_parent_suite : ℕ → Store → Ptr → Run SuitePtr
find_parent_suite n h none = done default_suite
find_parent_suite zero h (some a) = out_of_fuel
find_parent_suite (suc n) h (some a) =
    let rest = find_parent_suite n h (h a).previous in
    if is_testsuite (h a).kind then done (suite_at a) else rest

module _ {U : Type 0} where
  infixl 5 ◌>>=◌
  abbrev pub ◌>>=◌ : End U → (World U → End U) → End U
  returned w >>= f = f w
  jumped w >>= f = jumped w
  exited c w >>= f = exited c w
  undefined >>= f = undefined
  spent >>= f = spent

  abbrev pub set_run : World U → RunState → World U
  set_run w s = record w { run = s }

  abbrev pub print_text : Bytes → World U → World U
  print_text t w = record w { report = print t w.report }

  -- The end of `run_test`; a `longjmp` makes `setjmp` return once more.
  abbrev pub result_of : End U → Result U
  result_of (returned v) = finished 0 v
  result_of (jumped v) = finished 1 v
  result_of (exited c v) = exits c v
  result_of undefined = is_undefined
  result_of spent = is_spent

  -- The assignments behind a call of `run_test`.
  abbrev pub forget_current : Result U → Result U
  forget_current (finished rc v) =
      finished rc (set_run v (record (v.run) { current_test = none; current_suite = no_suite }))
  forget_current (exits c v) = exits c v
  forget_current is_undefined = is_undefined
  forget_current is_spent = is_spent

  -- `leave_test`
  unfoldable pub leave_test : ℕ → World U → End U
  leave_test outcome w = if w.run.leave_means_exit then exited outcome w else jumped w

  -- `pcut_report_test_done(current_test, …)` under `if (report_test_result)`
  unfoldable pub report_current : ℕ → (error teardown_error : Option Bytes) → World U → End U
  report_current outcome e t w =
      if w.run.report_test_result
      then elim (w.run.current_test) [
        | none ↦ undefined
        | some a ↦
            returned (record w { report = report_test_done (w.store a) outcome e t none w.report })
      ]
      else returned w

  module _ (call : Func → U → Called U) where
    -- A call of a function of the user; `fail` is `pcut_failed_assertion`.
    unfoldable pub call_user : (Bytes → World U → End U) → Func → World U → End U
    call_user fail f w = elim (call f w.user) [
      | returns text u ↦ returned (print_text text (record w { user = u }))
      | fails text message u ↦ fail message (print_text text (record w { user = u }))
    ]

    unfoldable pub run_setup_teardown : (Bytes → World U → End U) → Option Func → World U → End U
    unfolding call_user
    run_setup_teardown fail none w = returned w
    run_setup_teardown fail (some f) w = call_user fail f w

    -- `current_suite->setup_func` and the like, through the pointer
    abbrev pub with_suite : World U → (Item → End U) → End U
    with_suite w f = elim (suite_item w.store w.run.current_suite) [
      | none ↦ undefined
      | some s ↦ f s
    ]

    -- `pcut_failed_assertion`
    unfoldable pub failed_assertion : ℕ → Bytes → World U → End U
    unfolding leave_test report_current run_setup_teardown
    failed_assertion zero message w = spent
    failed_assertion (suc n) message w =
        let w₁ =
          if w.run.print_test_error then print_text (print_fail_message (some message)) w else w in
        let leave =
          λ (v : World U). leave_test 1 (set_run v (record (v.run) { prev_message = none })) in
        let w₂ =
          set_run w₁ (record (w₁.run) {
            execute_teardown_on_failure = false;
            prev_message = some message;
          }) in
        elim (w₁.run.execute_teardown_on_failure) [
          | true ↦
              with_suite w₂ (λ s. run_setup_teardown (failed_assertion n) s.teardown_func w₂)
              >>= (λ w₃. report_current 1 (some message) none w₃)
              >>= leave
          | false ↦ report_current 1 w₁.run.prev_message (some message) w₁ >>= leave
        ]

    -- `pcut_hook_before_test` of the Unix build
    unfoldable pub hook_before_test : Addr → World U → World U
    hook_before_test test w = w

    -- `test->test_func()`
    abbrev pub call_test : (Bytes → World U → End U) → Option Func → World U → End U
    call_test fail none w = undefined
    call_test fail (some f) w = call_user fail f w

    -- The part of `run_test` behind the look-up of the suite.
    unfoldable pub run_in_suite : ℕ → Addr → SuitePtr → World U → End U
    unfolding run_setup_teardown failed_assertion hook_before_test report_current
    run_in_suite n test suite w =
        let w₁ = set_run w (record (w.run) { current_suite = suite; current_test = some test }) in
        let w₂ = hook_before_test test w₁ in
        let w₃ = set_run w₂ (record (w₂.run) { execute_teardown_on_failure = true }) in
        with_suite w₃ (λ s. run_setup_teardown (failed_assertion n) s.setup_func w₃)
        >>= (λ v. call_test (failed_assertion n) (v.store test).test_func v)
        >>= (λ v.
            let v' = set_run v (record (v.run) { execute_teardown_on_failure = false }) in
            with_suite v' (λ s. run_setup_teardown (failed_assertion n) s.teardown_func v'))
        >>= (λ v. report_current 0 none none v)

    -- `run_test`
    unfoldable pub run_test : ℕ → Addr → World U → Result U
    unfolding run_in_suite find_parent_suite
    run_test n test w =
        let w₁ =
          if w.run.report_test_result
          then record w { report = report_test_start (w.store test) w.report }
          else w in
        elim (find_parent_suite n w₁.store (some test)) [
          | out_of_fuel ↦ is_spent
          | done suite ↦ result_of (run_in_suite n test suite w₁)
        ]

    unfoldable pub run_test_forked : ℕ → Addr → World U → Result U
    unfolding run_test
    run_test_forked n test w = forget_current (
        run_test n test (
          set_run w (record (w.run) {
            report_test_result = false;
            print_test_error = true;
            leave_means_exit = true;
          })))

    unfoldable pub run_test_single : ℕ → Addr → World U → Result U
    unfolding run_test
    run_test_single n test w = forget_current (
        run_test n test (
          set_run w (record (w.run) {
            report_test_result = true;
            print_test_error = false;
            leave_means_exit = false;
          })))

-- PCUT_DEFAULT_TEST_TIMEOUT
abbrev pub default_test_timeout : ℤ
default_test_timeout = ℤ.pos 3

-- The loop of `pcut_get_test_timeout` over the attributes before PCUT_EXTRA_LAST.
unfoldable pub timeout_loop : List Extra → ℤ → ℤ
timeout_loop [] timeout = timeout
timeout_loop (e ∷ es) timeout = elim e.type [
  | extra_last ↦ timeout
  | extra_timeout ↦ timeout_loop es e.timeout
  | extra_skip ↦ timeout_loop es timeout
]

unfoldable pub get_test_timeout : Item → ℤ
unfolding timeout_loop
get_test_timeout test = timeout_loop test.extras default_test_timeout
