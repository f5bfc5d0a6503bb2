-- ===== src/Main/InProcess.antt =====
-- The whole of src/list.c, src/main.c and src/run.c: a program that runs its tests in its own process.
use pcut.Common.{
  ℕ, suc, ◌≤◌, ◌<◌, ◌≡◌, refl, sym, ap, ◌∙◌, true, some, none, List, [], ◌∷◌, Bytes, codes, arith,
  length, has, AllDistinct, done,
}
use pcut.Item.{Addr, Func, Store, is_test}
use pcut.Items.Walk.{tests_among}
use pcut.Items.Tree.{Entries, IsFile, file, first_addr, depths}
use pcut.Macros.{main_extra_set_last}
use pcut.Report.{report_done}
use pcut.Report.State.{tap_handler}
use pcut.Report.Counted.{planned, report_init-planned}
use pcut.TestRun.{Called, World, Result}
use pcut.Main.{pcut_main}
use pcut.Main.Ends.{goes, Runner, single, set_report}
use pcut.Main.Members.{AllTests, with_items}
use pcut.Main.Whole.{whole, run_all-linked}
use pcut.Main.Stories.{told, in_process, NoMessage, HasFunction, in_process-ComesBack}
use pcut.Main.Program.{shown_items, tests_among-same}
use pcut.Main.Declared.{declared, AllAlike}
use pcut.Main.Prepared.{file-Prepared}
use pcut.Main.Plain.{started, pcut_main-run_all_single}

HasFunction-Alike :
    (h d : Store) (all xs : List Addr)
    → AllAlike h d all
    → ((x : Addr) → has x xs ≡ true → has x all ≡ true)
    → AllTests d (HasFunction all d) xs
    → AllTests h (HasFunction all h) xs
HasFunction-Alike h d all [] e sub ok = tt
HasFunction-Alike h d all (a ∷ xs) e sub ok =
    let i = sub a (ground arith) in
    (
      λ t.
          let (j, (f, tf)) = ok.0 (ap (λ k. is_test k) (sym (e a i).kind) ∙ t) in
          (j, (f, (e a i).test_func ∙ tf)),
      HasFunction-Alike h d all xs e (λ x m. sub x (ground arith)) ok.1,
    )

module _ {U : Type 0} (call : Func → U → Called U) (forks : Addr → World U → Result U)
    (preinit_hook : Func → List Bytes → U → List Bytes × U) (init_hook : Func → U → U)
    (run_here : Runner U) (d k : ℕ) (es : Entries) (z : Addr) (name : Bytes) (w : World U) where
  abbrev items : List Addr
  items = file es z

  abbrev source : Store
  source = declared (shown_items w.store) items

  abbrev fuel : ℕ
  fuel = suc (suc k)

  -- A program that is started with the argument `-u` prepares its items, which are then those that
  -- the source declares, with the set-up and tear-down functions in their suites, as far as a run
  -- tells items apart; it prints the plan for as many tests as are not marked to be skipped, runs
  -- the tests suite by suite in its own process, where each test tells its story with the
  -- functions of its suite, one after the other on the same state, and comes back with the result
  -- of the suites behind the end of the report. The conditions are that the items are laid out as
  -- the macros do it at different addresses, without hooks or a choice of the report, that the
  -- fuel covers the nesting of the imports and the number of the items, that each test has a
  -- function, and that no message is left from before.
  pub pcut_main-told :
      IsFile w.store es z
      → AllDistinct items
      → depths es < d
      → length items ≤ fuel
      → (w.store z).main_extras ≡ some (main_extra_set_last ∷ [])
      → AllTests source (HasFunction items source) items
      → w.run.prev_message ≡ none
      → (h : Store) × AllAlike h source items
        × (pcut_main
              (in_process call forks fuel)
              preinit_hook
              init_hook
              run_here
              d
              fuel
              z
              (name ∷ codes "-u" ∷ [])
              w
            ≡ (let r = planned (tests_among source items) (started tap_handler h w).report in
                let end =
                  whole
                    (in_process call forks fuel)
                    single
                    (told call items)
                    h
                    items
                    0
                    (with_items h (set_report w r)) in
                goes end.0 (set_report end.1 (report_done end.1.report))))
  pcut_main-told f ds dp l extras ok m =
      let (h, p) = file-Prepared fuel d w.store es z f ds dp l in
      let begun = started tap_handler h w in
      let total = tests_among-same h source items (λ x i. (p.same x i).kind) in
      let init =
        report_init-planned fuel h (some (first_addr es z)) items begun.report refl p.chain l
        ∙ ap (λ t. done (planned t begun.report)) total in
      (
        h,
        p.same,
        pcut_main-run_all_single (in_process call forks fuel) preinit_hook init_hook run_here d fuel
              z (first_addr es z) name p.list h w p.flattens (p.main_extras ∙ extras) p.collects
            ∙ run_all-linked (in_process call forks fuel) single (told call items) h NoMessage
                (HasFunction items h) (in_process-ComesBack call items forks k h p.back l) fuel
                (first_addr es z) items begun (planned (tests_among source items) begun.report)
                p.chain (HasFunction-Alike h source items items p.same (λ x i. i) ok) m l init,
      )
