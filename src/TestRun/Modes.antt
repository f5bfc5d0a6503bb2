-- ===== src/TestRun/Modes.antt =====
-- src/run.c: what the two modes to run a test make of a failure.
use pcut.Common.{ℕ, zero, suc, Bool, true, false, not, ◌≡◌, refl, Option, none, some, Bytes}
use pcut.Item.{Ptr, Item, Store}
use pcut.Output.{print_fail_message}
use pcut.Report.{report_test_done}
use pcut.Report.State.{Report, print}
use pcut.TestRun.{World, SuitePtr, End, returned, jumped, exited}
use pcut.TestRun.Story.{outcome}

-- How a test ends that failed, by the mode: a jump back in single mode, else the end of the process.
abbrev pub left : {U : Type 0} → Bool → World U → End U
left true w = jumped w
left false w = exited 1 w

-- the report with a failure message behind it
abbrev pub complain : Option Bytes → Report → Report
complain none r = r
complain (some m) r = print (print_fail_message (some m)) r

-- What the report has of a failure before the tear-down function is called.
abbrev pub early : Option Bytes → Bool → Report → Report
early none b r = r
early (some m) true r = r
early (some m) false r = complain (some m) r

-- What the end of the test adds to the report.
abbrev pub late : Bool → Item → Option Bytes → Option Bytes → Report → Report
late true i e t r = report_test_done i (outcome e t) e t none r
late false i e t r = complain t r

-- A world in single mode (`true`) or in forked mode, at the start of a run.
abbrev pub mode_world : {U : Type 0} → Bool → Store → Bool → Ptr → SuitePtr → Report → U → World U
mode_world b h e ct cs r u = record {
  store = h;
  run = record {
    execute_teardown_on_failure = e;
    report_test_result = b;
    print_test_error = not b;
    leave_means_exit = not b;
    current_test = ct;
    current_suite = cs;
    prev_message = none;
  };
  report = r;
  user = u;
}

-- a pass returns, a failure leaves
abbrev pub end_of : {U : Type 0} → Bool → ℕ → World U → End U
end_of b zero w = returned w
end_of b (suc rc) w = left b w

-- What is reported before the tear-down function in single mode: nothing.
pub early-true : (e : Option Bytes) (r : Report) → early e true r ≡ r
early-true none r = refl
early-true (some m) r = refl

-- What is reported before the tear-down function in forked mode: the message.
pub early-false : (e : Option Bytes) (r : Report) → early e false r ≡ complain e r
early-false none r = refl
early-false (some m) r = refl
