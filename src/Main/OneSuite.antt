-- ===== src/Main/OneSuite.antt =====
-- src/main.c with src/os/unix.c: a program that is started with the option for one suite.
use pcut.Common.{
  ℕ, suc, ◌≤◌, ◌<◌, ◌≡◌, refl, ap, ◌∙◌, subst, true, some, none, List, [], ◌∷◌, ◌++◌, Bytes, codes,
  arith, pos, length, decimal, done, ltb, has, AllDistinct, Bool-cases, inl, inr, ◌==◌,
}
use pcut.Item.{Addr, Ptr, Func, Store, is_testsuite}
use pcut.Items.{fix_list}
use pcut.Items.Walk.{Chain}
use pcut.Items.Tree.{Entries, IsFile, file, first_addr, depths}
use pcut.Macros.{main_extra_set_last}
use pcut.Report.{report_register_handler}
use pcut.Report.State.{Report, tap_handler}
use pcut.Report.Style.{Case, suite_text}
use pcut.Report.TapStyle.{tap_style}
use pcut.Report.Document.{suite_report-Spoke}
use pcut.TestRun.{Called, World}
use pcut.Args.{str_equals}
use pcut.Args.Numbers.{is_arg_with_number-decimal_suite}
use pcut.Forking.Process.{Machine, Works}
use pcut.Main.{
  Options, default_options, pcut_main, preinit_extras, read_args, init_extras, run_chosen,
  run_one_suite,
}
use pcut.Main.Callbacks.{set_setup_teardown_callbacks}
use pcut.Main.Cases.{case_of, tests-Alike, case_of-Alike, retold-case_report}
use pcut.Main.Collected.Suites.{behind}
use pcut.Main.Collected.Final.{has-behind}
use pcut.Main.Declared.{declared}
use pcut.Main.Ends.{goes, outcome_pass, Runner, forking}
use pcut.Main.Forks.{in_forks, retold, Fresh, FitsHere, in_forks-ComesBack}
use pcut.Main.Judged.{suite_result, run_suite-suite_result}
use pcut.Main.Members.{AllTests, suite_tests, suite_tests-All}
use pcut.Main.Numbered.{number_of}
use pcut.Main.Plain.{started}
use pcut.Main.Prepared.{file-Prepared}
use pcut.Main.Program.{shown_items}
use pcut.Main.SameText.{AllRetold, suite_text-same, suite_tests-retold, has-suite_tests}
use pcut.Main.Selected.{number, found, positive, is_testsuite-real}
use pcut.Main.Written.{suite_result-suite_report}

Chain-behind :
    (h : Store) (p : Ptr) (xs : List Addr) (t : Addr)
    → Chain h p xs
    → has t xs ≡ true
    → Chain h (h t).next (behind t xs)
Chain-behind h p [] t c i = cc
Chain-behind h p (a ∷ xs) t c i = elim (Bool-cases (t == a)) [
  | inl e ↦ let same : a ≡ t = ground arith in rw e (subst (λ x. Chain h (h x).next xs) same c.1)
  | inr e ↦ rw e (Chain-behind h (h a).next xs t c.1 (ground arith))
]

length-behind : (t : Addr) (xs : List Addr) → length (behind t xs) ≤ length xs
length-behind t [] = omega arith
length-behind t (a ∷ xs) = elim (Bool-cases (t == a)) [
  | inl e ↦ rw e (omega arith)
  | inr e ↦ rw e (omega (arith, length-behind t xs))
]

module _ {U : Type 0} (runner : Runner U) (preinit_hook : Func → List Bytes → U → List Bytes × U)
    (init_hook : Func → U → U) (run_here : Runner U) where
  abbrev suite_options : ℕ → Options
  suite_options i = record (default_options runner preinit_hook init_hook) {
    run_only_suite = pos i;
  }

  -- The way of `pcut_main` with the argument for one suite.
  pcut_main-run_one_suite :
      (d n : ℕ) (last first : Addr) (name : Bytes) (g h : Store) (w : World U) (i : ℕ)
      → fix_list n d w.store last ≡ done (first, g)
      → (g last).main_extras ≡ some (main_extra_set_last ∷ [])
      → set_setup_teardown_callbacks n g (some first) ≡ done h
      → ltb 0 i ≡ true
      → pcut_main runner preinit_hook init_hook run_here d n last
          (name ∷ (codes "-s" ++ decimal i) ∷ [])
          w
        ≡ run_one_suite runner preinit_hook init_hook n
            (some first)
            (suite_options i)
            (started tap_handler h w)
  unfolding pcut_main preinit_extras read_args init_extras run_chosen report_register_handler
      str_equals
  pcut_main-run_one_suite d n last first name g h w i flattens extras collects positive =
      let read = is_arg_with_number-decimal_suite i in
      rw (flattens, extras, read.0, read.1, collects, positive) refl

module _ (machines : Addr → Machine) {U : Type 0} (call : Func → U → Called U)
    (preinit_hook : Func → List Bytes → U → List Bytes × U) (init_hook : Func → U → U)
    (run_here : Runner U) (works : (a : Addr) → Works (machines a)) (d k : ℕ) (es : Entries)
    (z t : Addr) (name : Bytes) (w : World U) where
  abbrev items : List Addr
  items = file es z

  abbrev source : Store
  source = declared (shown_items w.store) items

  abbrev cases : Addr → Case
  cases = case_of call source items w.user

  -- A program that is started with the argument `-s` and the number of a suite runs the tests
  -- behind it, up to the next suite, each in a process of its own on Unix, prints their TAP report
  -- and nothing else, and returns a pass, also when tests fail. The suite has the set-up and
  -- tear-down functions that the source declares, and what is printed are the stories of its
  -- tests. The conditions are that the items are laid out as the macros do it at different
  -- addresses, without hooks or a choice of the report, that the fuel covers the nesting of the
  -- imports and the number of the items, that the suite is one of the items, that no message is
  -- left from before, that each test behind the suite has a function and a story that holds no NUL
  -- and fits the buffers, and that the system makes pipes and processes and delivers what is
  -- written, with nothing else on the standard error.
  pub pcut_main-one_suite :
      IsFile w.store es z
      → AllDistinct items
      → depths es < d
      → length items ≤ suc (suc k)
      → (w.store z).main_extras ≡ some (main_extra_set_last ∷ [])
      → has t items ≡ true
      → is_testsuite (source t).kind ≡ true
      → AllTests source (FitsHere machines call items source w.user) (behind t items)
      → w.run.prev_message ≡ none
      → (v : World U) × (pcut_main
            (in_forks machines call (suc (suc k)))
            preinit_hook
            init_hook
            run_here
            d
            (suc (suc k))
            z
            (name ∷ (codes "-s" ++ decimal (number_of (shown_items w.store) 1 items t)) ∷ [])
            w
          ≡ goes outcome_pass v)
        × (v.report.out
            ≡ w.report.out
              ++ suite_text source cases tap_style w.report.tap.test_counter t
                  (suite_tests source (behind t items)))
  unfolding run_one_suite
  pcut_main-one_suite f ds dp l extras i suite ok m =
      let n = suc (suc k) in
      let ys = behind t items in
      let (h, p) = file-Prepared n d w.store es z f ds dp l in
      let is_one : is_testsuite (h t).kind ≡ true =
        ap (λ q. is_testsuite q) (p.same t i).kind ∙ suite in
      let real = is_testsuite-real (h t).kind is_one in
      let fork = in_forks machines call n in
      let tell = retold machines call items in
      let Runs = FitsHere machines call items h w.user in
      let comes = in_forks-ComesBack machines call items h w.user works k p.back l in
      let inside : (x : Addr) → has x ys ≡ true → has x items ≡ true =
        λ x j. has-behind t x items j in
      let here = tests-Alike machines call items h source w.user p.same ys inside ok in
      let begun = started tap_handler h w in
      let told = case_of call h items w.user in
      let ts = suite_tests h ys in
      let run =
        run_suite-suite_result fork forking tell h (Fresh machines call w.user) Runs comes n t ys
          begun here (m, refl) (Chain-behind h (some (first_addr es z)) items t p.chain i)
          (omega (arith, length-behind t items)) in
      let reported =
        suite_result-suite_report fork forking tell h (Fresh machines call w.user) Runs comes told
          (retold-case_report machines call items h w.user) t ts begun
          (suite_tests-All h Runs ys here) (m, refl) in
      let alike : AllRetold h source told cases tap_style items = λ x j. record {
        kind = (p.same x j).kind;
        name = (p.same x j).name;
        told = case_of-Alike machines call items h source w.user p.same x j;
      } in
      let spoke = suite_report-Spoke h told t ts begun.report refl in
      (
        (suite_result fork forking tell t ts begun).1,
        pcut_main-run_one_suite fork preinit_hook init_hook run_here d n z (first_addr es z) name
              p.list h w (number d n es z w h p t i real) p.flattens (p.main_extras ∙ extras)
              p.collects (positive d n es z w h p t i real)
            ∙ rw (found d n es z w h p t i real l, is_one, run) refl,
        ap (λ (r : Report). r.out) reported
            ∙ spoke.out
            ∙ ap (λ x. w.report.out ++ x)
                (suite_text-same h source told cases tap_style w.report.tap.test_counter t ts
                    ((p.same t i).name) (λ x j. alike x (inside x (has-suite_tests h ys x j)))
                  ∙ ap (suite_text source cases tap_style w.report.tap.test_counter t) (
                      suite_tests-retold h source told cases tap_style ys
                        (λ x j. alike x (inside x j)))),
      )
