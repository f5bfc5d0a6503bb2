-- ===== src/Tests/Runs.antt =====
-- Runs of suites and of whole programs.
use pcut.Common.{decimal, ℕ, ◌≡◌, refl, none, some, ◌∷◌, codes, ◌==◌, if◌then◌else◌, done, arith}
use pcut.Item.{Addr}
use pcut.Items.{count_loop, get_real_next, advance, count_tests}
use pcut.Report.{report_init}
use pcut.Report.State.{Report, print}
use pcut.TestRun.{World, RunState, finished, find_parent_suite}
use pcut.TestRun.Single.{idle}
use pcut.Report.Tap.{tap_init}
use pcut.Main.Ends.{goes, forking, Runner}
use pcut.Main.Suite.{run_suite}
use pcut.Main.Members.{AllTests, ComesBack, suite_tests, next_suite}
use pcut.Main.Judged.{suite_result, run_suite-suite_result}
use pcut.TestRun.{Result}
use pcut.TestRun.Parent.{host, suite_ptr, find_parent_suite-host}
use pcut.Tests.Items.{linked_items, linked_rest, linked-Chain}
use pcut.Tests.Stories.{run_start, report_start}

-- Test 4 fails.
abbrev pub judge : Addr → World ℕ → ℕ × World ℕ
judge a w = (if a == 4 then 1 else 0, w)

abbrev pub runner : Runner ℕ
runner mode a w = finished (judge a w).0 w

abbrev pub AnyFlags : RunState → ℕ → Type 0
AnyFlags run u = Unit {0}

abbrev pub AnyTest : Addr → Type 0
AnyTest a = Unit {0}

pub runner-ComesBack : ComesBack runner forking judge linked_items AnyFlags AnyTest
runner-ComesBack a w i e = (refl, tt)

pub linked-AllTests : AllTests linked_items AnyTest (1 ∷ linked_rest)
linked-AllTests = (λ t. tt, (λ t. tt, (λ t. tt, (λ t. tt, tt))))

abbrev pub linked_world : World ℕ
linked_world = idle linked_items run_start report_start 0

run_suite-suite_result_example : run_suite runner forking 4 1 linked_world ≡ (
    let r =
      suite_result runner forking judge 1 (suite_tests linked_items linked_rest) linked_world in
    goes (next_suite linked_items linked_rest, r.0) r.1)
run_suite-suite_result_example =
    run_suite-suite_result runner forking judge linked_items AnyFlags AnyTest runner-ComesBack 4 1
      linked_rest linked_world linked-AllTests.1 tt linked-Chain (omega arith)

abbrev report_told : Report
report_told = record report_start { out = codes "1..2\n" }

planned : report_init 4 linked_items (some 1) report_start ≡ done (report_told)
unfolding report_init tap_init count_tests count_loop get_real_next advance print decimal
planned = refl

find_parent_suite-host_example :
    find_parent_suite 4 linked_items (some 4)
    ≡ done (suite_ptr (host linked_items none (1 ∷ linked_rest) 4))
unfolding find_parent_suite
find_parent_suite-host_example =
    find_parent_suite-host 0 4 linked_items none none (1 ∷ linked_rest) 4 refl
      (refl, (refl, (refl, (refl, tt)))) refl (omega arith)

abbrev pub forks : Addr → World ℕ → Result ℕ
forks a w = finished 0 w
