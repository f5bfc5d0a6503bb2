-- ===== src/TestRun/Forked.antt =====
-- A test that is run in a process of its own: what the process prints, and its exit code.
use pcut.Common.{
  ℕ, suc, false, ◌≡◌, refl, sym, ap, ◌∙◌, Option, none, some, List, [], ◌∷◌, Bytes, done,
}
use pcut.Item.{Func, Item, Store}
use pcut.Output.{print_fail_message}
use pcut.Report.State.{Report, print}
use pcut.TestRun.{
  Called, World, RunState, SuitePtr, suite_item, Result, finished, exits, is_undefined, is_spent,
  run_test_forked, result_of, forget_current, find_parent_suite, run_test,
}
use pcut.Output.RoundTrip.{Chunk, plain, failure, render}
use pcut.TestRun.Single.{idle}
use pcut.TestRun.Modes.{complain, early-false, end_of}
use pcut.TestRun.Ending.{torn_down, run_in_suite-ending}
use pcut.TestRun.Story.{print_nil, Story, story, verdict, outcome, print-print}

-- What the parent can see of a process: its exit code, its output and the effects of the functions.
abbrev pub child_exit : {U : Type 0} → Result U → Option (ℕ × Report × U)
child_exit (finished rc w) = some (rc, w.report, w.user)
child_exit (exits c w) = some (c, w.report, w.user)
child_exit is_undefined = none
child_exit is_spent = none

-- What the process of a test writes to its standard output.
abbrev pub failures : Option Bytes → List Chunk → List Chunk
failures none cs = cs
failures (some m) cs = failure m ∷ cs

abbrev pub chunks : {U : Type 0} → Story U → List Chunk
chunks st =
    plain st.body.text
    ∷ failures st.body.message (plain st.teardown.text ∷ failures st.teardown.message [])

complain-print :
    (e : Option Bytes) (cs : List Chunk) (r : Report)
    → print (render cs) (complain e r) ≡ print (render (failures e cs)) r
complain-print none cs r = refl
complain-print (some m) cs r = print-print (print_fail_message (some m)) (render cs) r

prints-chunks :
    {U : Type 0} (st : Story U) (r : Report)
    → complain st.teardown.message
        (print st.teardown.text (complain st.body.message (print st.body.text r)))
      ≡ print (render (chunks st)) r
prints-chunks st r =
    let late = failures st.teardown.message [] in
    let rest = plain st.teardown.text ∷ late in
    sym (print_nil _)
    ∙ complain-print st.teardown.message [] _
    ∙ print-print st.teardown.text (render late) _
    ∙ complain-print st.body.message rest (print st.body.text r)
    ∙ print-print st.body.text (render (failures st.body.message rest)) r

child_exit-outcome :
    {U : Type 0} (b t : Option Bytes) (w : World U)
    → child_exit (forget_current (result_of (end_of false (outcome b t) w)))
      ≡ some (outcome b t, w.report, w.user)
child_exit-outcome none none w = refl
child_exit-outcome none (some t) w = refl
child_exit-outcome (some b) t w = refl

-- `pcut_run_test_forked` tells the story of the test to the standard output of its process, each
-- message in the encoding of `pcut_print_fail_message`, and reports nothing; the process ends with
-- 0 for a pass and 1 for a failure, be it by the return or by `exit`. The conditions are that the
-- test has a function, that its suite is found with the fuel given, and that no message is left
-- from a test before.
pub run_test_forked-story :
    {U : Type 0} (call : Func → U → Called U) (k : ℕ) (h : Store) (a f : ℕ) (sp : SuitePtr)
    (s : Item) (run : RunState) (r : Report) (u : U)
    → (h a).test_func ≡ some f
    → find_parent_suite (suc (suc k)) h (some a) ≡ done sp
    → suite_item h sp ≡ some s
    → child_exit (run_test_forked call (suc (suc k)) a (idle h run r u)) ≡ (
        let st = story call s f u in
        some (verdict st, print (render (chunks st)) r, st.teardown.user))
unfolding run_test_forked run_test
run_test_forked-story call k h a f sp s run r u tf parent suite =
    let st = story call s f u in
    rw
      (
        parent,
        run_in_suite-ending call h a sp s f suite tf false k run.execute_teardown_on_failure
            run.current_test run.current_suite r u,
      )
      (child_exit-outcome st.body.message st.teardown.message (
          torn_down call h a sp s f suite tf false (print st.body.text r) st.body.user
            st.body.message)
        ∙ rw (early-false st.body.message (print st.body.text r)) refl
        ∙ ap (λ x. some (verdict st, x, st.teardown.user)) (prints-chunks st r))
