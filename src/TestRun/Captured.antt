-- ===== src/TestRun/Captured.antt =====
-- From src/run.c in the process of a test to src/report/report.c in the process that reports it.
use pcut.Common.{
  ℕ, suc, ◌-◌, ◌≤◌, ◌≡◌, refl, ap, ◌∙◌, Option, none, some, List, [], ◌∷◌, ◌++◌, Bytes, append-nil,
  done, length,
}
use pcut.Item.{Func, Item, Store}
use pcut.Output.{parsed, parse_command_output}
use pcut.Output.Parse.{zeros}
use pcut.Output.RoundTrip.{Chunk, plain, render, plain_text, message_lines, NoNuls, parse-render}
use pcut.Report.State.{Report, print}
use pcut.TestRun.{Called, RunState, SuitePtr, suite_item, find_parent_suite, run_test_forked}
use pcut.TestRun.Single.{idle}
use pcut.TestRun.Story.{Story, story, verdict}
use pcut.TestRun.Forked.{child_exit, failures, chunks, run_test_forked-story}

-- All text that the functions printed, and the messages of their failures.
abbrev pub said : {U : Type 0} → Story U → Bytes
said st = st.body.text ++ st.teardown.text

abbrev pub complaints : {U : Type 0} → Story U → Bytes
complaints st = message_lines (failures st.body.message (failures st.teardown.message []))

failures-text : (m : Option Bytes) (cs : List Chunk) → plain_text (failures m cs) ≡ plain_text cs
failures-text none cs = refl
failures-text (some m) cs = refl

late_failures-messages :
    (b t : Option Bytes) (text : Bytes)
    → message_lines (failures b (plain text ∷ failures t []))
      ≡ message_lines (failures b (failures t []))
late_failures-messages none t text = refl
late_failures-messages (some []) t text = refl
late_failures-messages (some (c ∷ m)) t text = refl

chunks-text : {U : Type 0} (st : Story U) → plain_text (chunks st) ≡ said st
chunks-text st =
    ap (λ x. st.body.text ++ x)
      (failures-text st.body.message (plain st.teardown.text ∷ failures st.teardown.message [])
        ∙ ap (λ x. st.teardown.text ++ x) (failures-text st.teardown.message [])
        ∙ append-nil st.teardown.text)

chunks-messages : {U : Type 0} (st : Story U) → message_lines (chunks st) ≡ complaints st
chunks-messages st = late_failures-messages st.body.message st.teardown.message st.teardown.text

print_empty : (t : Bytes) (r : Report) → r.out ≡ [] → print t r ≡ record r { out = t }
unfolding print
print_empty t r e = rw e refl

-- What a test says in a process of its own reaches the report: the process ends with the verdict,
-- and the parser, run on its output with at least two zero bytes behind it, finds all text of the
-- set-up, the test and the tear-down in the first buffer, and the messages of all failures, a line
-- each, in the second. The conditions are those of a forked run, no output before the test, and
-- texts and messages that hold no NUL and fit the buffers.
pub run_test_forked-parsed :
    {U : Type 0} (call : Func → U → Called U) (k j n m : ℕ) (h : Store) (a f : ℕ) (sp : SuitePtr)
    (s : Item) (run : RunState) (r : Report) (u : U)
    → (h a).test_func ≡ some f
    → find_parent_suite (suc (suc k)) h (some a) ≡ done sp
    → suite_item h sp ≡ some s
    → r.out ≡ []
    → NoNuls (chunks (story call s f u))
    → length (said (story call s f u)) ≤ n
    → length (complaints (story call s f u)) ≤ m
    → (out : Bytes) × (child_exit (run_test_forked call (suc (suc k)) a (idle h run r u))
        ≡ some
            (verdict (story call s f u), record r { out = out }, (story call s f u).teardown.user))
      × (parse_command_output (out ++ zeros (suc (suc j))) n m
          ≡ done (
              parsed (record {
                stdio = said (story call s f u);
                stdio_left = n - length (said (story call s f u));
                error = complaints (story call s f u);
                error_left = m - length (complaints (story call s f u));
              })))
run_test_forked-parsed call k j n m h a f sp s run r u tf parent suite empty nn fits_n fits_m =
    let st = story call s f u in
    let text = chunks-text st in
    let messages = chunks-messages st in
    (
      render (chunks st),
      run_test_forked-story call k h a f sp s run r u tf parent suite
          ∙ ap (λ x. some (verdict st, x, st.teardown.user))
              (print_empty (render (chunks st)) r empty),
      rw (text, messages) at
          (parse-render (chunks st) j n m nn (rw text fits_n) (rw messages fits_m)),
    )
