-- ===== src/Main/Ran.antt =====
-- src/main.c with src/os/unix.c and src/run.c: a run of all tests of a program from its prepared list, with
-- any report, as its source tells it.
use pcut.Common.{
  ℕ, suc, ◌≤◌, ◌≡◌, refl, ap, ◌∙◌, true, some, none, List, [], arith, length, has, ◌==◌, done,
  if◌then◌else◌,
}
use pcut.Item.{Addr, Func, Store}
use pcut.Items.Walk.{tests_among}
use pcut.Items.Tree.{Entries, file, first_addr}
use pcut.Report.State.{Report}
use pcut.TestRun.{Called, World}
use pcut.Report.{report_init, report_done}
use pcut.Main.Ends.{goes, forking, outcome_fail, set_report}
use pcut.Main.Members.{AllTests, suite_tests}
use pcut.Main.Program.{shown_items, suite_tests-same, tests_among-same}
use pcut.Forking.Process.{Machine, Works}
use pcut.Main.Forks.{in_forks, retold, Fresh, FitsHere, in_forks-ComesBack}
use pcut.Main.Verdicts.{failing, failing_among, failing_run, failing_among-failing_run, scored_run}
use pcut.Main.Tally.{tests_run, tests_among-tests_run}
use pcut.Main.Loop.{run_all}
use pcut.Report.Style.{Style}
use pcut.Main.Cases.{
  case_of, verdict_of, retold-Tells, retold-case_report, tests-Alike, case_of-Alike, failing-Alike,
}
use pcut.Report.Style.{Case}
use pcut.Main.Written.{document, suites_report, whole-suites_report}
use pcut.Main.SameText.{document-same}
use pcut.Main.Prepared.{Prepared}
use pcut.Main.Declared.{declared}

module _ (machines : Addr → Machine) {U : Type 0} (call : Func → U → Called U)
    (works : (a : Addr) → Works (machines a)) (d k : ℕ) (es : Entries) (z : Addr) (w : World U)
    (h : Store) (p : Prepared (suc (suc k)) d w.store es z h) where
  abbrev items : List Addr
  items = file es z

  abbrev source : Store
  source = declared (shown_items w.store) items

  abbrev cases : Addr → Case
  cases = case_of call source items w.user

  -- What the report is told by the prepared list.
  abbrev pub told : Addr → Case
  told = case_of call h items w.user

  kinds-same : (x : Addr) → has x items ≡ true → (h x).kind ≡ (source x).kind
  kinds-same x i = (p.same x i).kind

  pub total : tests_among h items ≡ tests_among source items
  total = tests_among-same h source items kinds-same

  fails :
      failing_among h (verdict_of call h items w.user) items
      ≡ failing_among source (verdict_of call source items w.user) items
  fails = failing-Alike machines call items h source w.user p.same items (λ x i. i)

  -- Both documents are the same.
  pub document-source :
      (style : Style) (all failed : ℕ)
      → document h told style all failed items ≡ document source cases style all failed items
  document-source style all failed =
      document-same h source told cases style all failed items (λ x i. record {
        kind = (p.same x i).kind;
        name = (p.same x i).name;
        told = case_of-Alike machines call items h source w.user p.same x i;
      })

  module _ (none_before : suite_tests source items ≡ []) where
    none_prepared : suite_tests h items ≡ []
    none_prepared = suite_tests-same h source items kinds-same ∙ none_before

    pub run_total : tests_run h items ≡ tests_among source items
    run_total =
        let none_missed : length (suite_tests h items) ≡ 0 = ap (λ ts. length ts) none_prepared in
        omega (arith, none_missed, tests_among-tests_run h items, total)

    pub run_failures :
        failing_run h (verdict_of call h items w.user) items
        ≡ failing_among source (verdict_of call source items w.user) items
    run_failures =
        let out = verdict_of call h items w.user in
        let none_failed : failing out (suite_tests h items) ≡ 0 = ap (failing out) none_prepared in
        omega (arith, none_failed, failing_among-failing_run h out items, fails)

    -- The run with the report `s`, which begins as `r`.
    pub source_run :
        (s r : Report)
        → length items ≤ suc (suc k)
        → AllTests source (FitsHere machines call items source w.user) items
        → w.run.prev_message ≡ none
        → report_init (suc (suc k)) h (some (first_addr es z)) s ≡ done r
        → (v : World U) × (run_all
              (in_forks machines call (suc (suc k)))
              forking
              (suc (suc k))
              (some (first_addr es z))
              (record w { store = h; report = s })
            ≡ goes
                (if failing_among source (verdict_of call source items w.user) items == 0
                  then 0
                  else outcome_fail)
                v)
          × (v.report ≡ report_done (suites_report h told items r))
    source_run s r l ok m init =
        let fork = in_forks machines call (suc (suc k)) in
        let tell = retold machines call items in
        let Runs = FitsHere machines call items h w.user in
        let comes = in_forks-ComesBack machines call items h w.user works k p.back l in
        let here = tests-Alike machines call items h source w.user p.same items (λ x i. i) ok in
        let (v, runs, reported) =
          scored_run fork forking tell h (Fresh machines call w.user) Runs
            (verdict_of call h items w.user) comes (retold-Tells machines call items h w.user)
            (suc (suc k)) (first_addr es z) items (set_report w s) r p.chain here (m, refl) l
            none_prepared init in
        (
          v,
          runs ∙ ap (λ n. goes (if n == 0 then 0 else outcome_fail) v) fails,
          reported
              ∙ ap report_done (
                  whole-suites_report fork forking tell h (Fresh machines call w.user) Runs comes
                    told (retold-case_report machines call items h w.user) items 0 (set_report w r)
                    here (m, refl)),
        )
