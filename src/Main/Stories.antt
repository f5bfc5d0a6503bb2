-- ===== src/Main/Stories.antt =====
-- src/main.c with src/run.c: a run of all tests in the process that reports them.
use pcut.Common.{ℕ, suc, ◌≤◌, ◌≡◌, refl, ap, ◌∙◌, true, none, some, List, arith, length, has}
use pcut.Item.{Addr, Func, Store}
use pcut.Items.Links.{Back}
use pcut.Report.{report_test_start, report_test_done}
use pcut.Report.State.{print}
use pcut.TestRun.{Called, World, RunState, Result, find_parent_suite, run_test_single}
use pcut.TestRun.Story.{story, verdict}
use pcut.TestRun.Single.{idle, single_flags, run_test_single-story}
use pcut.TestRun.Parent.{
  host, suite_ptr, suite_fields, suite_item-suite_ptr, find_parent_suite-host,
}
use pcut.Main.Ends.{Runner, forking, single}
use pcut.Main.Members.{ComesBack, with_items}

-- No message is left from a test before.
abbrev pub NoMessage : {U : Type 0} → RunState → U → Type 0
NoMessage run u = run.prev_message ≡ none

-- An item of the list with a function of its own.
abbrev pub HasFunction : List Addr → Store → Addr → Type 0
HasFunction xs h a = (has a xs ≡ true) × ((f : Func) × ((h a).test_func ≡ some f))

module _ {U : Type 0} (call : Func → U → Called U) where
  -- The two ways to run a test; the one that forks is an argument.
  abbrev pub in_process : (Addr → World U → Result U) → ℕ → Runner U
  in_process forks n forking a w = forks a w
  in_process forks n single a w = run_test_single call n a w

  module _ (xs : List Addr) where
    -- A test of the list by its story, with the functions of the last suite before it.
    abbrev pub told : Addr → World U → ℕ × World U
    told a w = elim ((w.store a).test_func) [
      | none ↦ (0, w)
      | some f ↦
          let st = story call (suite_fields w.store (host w.store none xs a)) f w.user in
          (
            verdict st,
            record {
              store = w.store;
              run = single_flags;
              report =
                  report_test_done (w.store a) (verdict st) st.body.message st.teardown.message none
                    (print st.teardown.text
                      (print st.body.text (report_test_start (w.store a) w.report)));
              user = st.teardown.user;
            },
          )
    ]

    idle-same :
        (h : Store) (w : World U)
        → NoMessage w.run w.user
        → with_items h w ≡ idle h w.run w.report w.user
    idle-same h w e =
        ap (λ m. record (with_items h w) { run = record (w.run) { prev_message = m } }) e

    pub in_process-ComesBack :
        (forks : Addr → World U → Result U) (k : ℕ) (h : Store)
        → Back h none xs
        → length xs ≤ suc (suc k)
        → ComesBack (in_process forks (suc (suc k))) single told h NoMessage (HasFunction xs h)
    unfolding find_parent_suite
    in_process-ComesBack forks k h b l a w (i, (f, tf)) e =
        let p = host h none xs a in
        let parent =
          find_parent_suite-host 0 (suc (suc k)) h none none xs a refl b i (omega arith) in
        let s = suite_fields h p in
        rw tf (
          ap (λ v. run_test_single call (suc (suc k)) a v) (idle-same h w e)
              ∙ run_test_single-story call k h a f (suite_ptr p) s w.run w.report w.user tf parent
                  (suite_item-suite_ptr h p),
          refl,
        )
