-- ===== src/Main/Program.antt =====
-- src/list.c, src/main.c and src/run.c: from the static items of a program to the end of its run.
use pcut.Common.{
  ℕ, suc, ◌≤◌, ◌<◌, ◌≡◌, refl, sym, ap, ◌∙◌, true, some, List, [], ◌∷◌, ◌++◌, Bytes, codes, decimal,
  arith, length, done, has, AllDistinct, ◌==◌, if◌then◌else◌,
}
use pcut.Item.{Addr, Func, Store, is_test}
use pcut.Items.{fix_list}
use pcut.Items.Linked.{shown}
use pcut.Items.Tree.{Entries, IsFile, file, first_addr, depths}
use pcut.Items.Walk.{tests_among}
use pcut.Items.Flatten.{Flattened, fix_list-Flattened}
use pcut.Report.{report_init, report_done}
use pcut.Report.State.{Report}
use pcut.Report.Counted.{IsTap, report_init-ends}
use pcut.TestRun.{Called, World, Result}
use pcut.Main.Ends.{Exec, Runner, set_report, goes, single, outcome_fail}
use pcut.Main.Members.{ComesBack, AllTests, with_items, suite_tests}
use pcut.Main.Loop.{run_all}
use pcut.Main.Whole.{whole, run_all-linked}
use pcut.Main.Stories.{NoMessage, HasFunction, in_process, told, in_process-ComesBack}
use pcut.Main.Counters.{counted_run, told-CountsTests}

-- The items as they are shown once imports and skipped tests are hidden.
abbrev pub shown_items : Store → Store
shown_items h a = record (h a) { kind = shown (h a) }

module _ (g h : Store) where
  abbrev SameKinds : List Addr → Type 0
  SameKinds xs = (x : Addr) → has x xs ≡ true → (g x).kind ≡ (h x).kind

  pub suite_tests-same : (xs : List Addr) → SameKinds xs → suite_tests g xs ≡ suite_tests h xs
  suite_tests-same [] e = refl
  suite_tests-same (a ∷ xs) e =
      rw (e a (ground arith), suite_tests-same xs (λ x m. e x (ground arith))) refl

  pub tests_among-same : (xs : List Addr) → SameKinds xs → tests_among g xs ≡ tests_among h xs
  tests_among-same [] e = refl
  tests_among-same (a ∷ xs) e =
      rw (e a (ground arith), tests_among-same xs (λ x m. e x (ground arith))) refl

-- A test that has a function.
abbrev pub IsDefined : Store → Addr → Type 0
IsDefined h a = (f : Func) × ((h a).test_func ≡ some f)

-- The tests of the flattened list have the functions that they had.
module _ (before g : Store) (all : List Addr) (first : Addr)
    (fl : Flattened before g all first) where
  tests_defined :
      (xs : List Addr)
      → ((x : Addr) → has x xs ≡ true → has x all ≡ true)
      → AllTests (shown_items before) (IsDefined before) xs
      → AllTests g (HasFunction all g) xs
  tests_defined [] sub ok = tt
  tests_defined (a ∷ xs) sub ok =
      let here : has a all ≡ true = sub a (ground arith) in
      (
        λ t.
            let (f, tf) = ok.0 (ap (λ k. is_test k) (sym (fl.kinds a here)) ∙ t) in
            (here, (f, (fl.settled a here).test_func ∙ tf)),
        tests_defined xs (λ x m. sub x (ground arith)) ok.1,
      )

module _ {U : Type 0} (call : Func → U → Called U) (forks : Addr → World U → Result U) (k d : ℕ)
    (before : Store) (es : Entries) (z : Addr) (w : World U) where
  abbrev items : List Addr
  items = file es z

  abbrev runner : Runner U
  runner = in_process call forks (suc (suc k))

  abbrev run : Store → Exec U ℕ
  run g = run_all runner single (suc (suc k)) (some (first_addr es z)) (with_items g w)

  back :
      (g : Store)
      → Flattened before g items (first_addr es z)
      → length items ≤ suc (suc k)
      → ComesBack runner single (told call items) g NoMessage (HasFunction items g)
  back g fl l = in_process-ComesBack call items forks k g fl.back l

  defined :
      (g : Store)
      → Flattened before g items (first_addr es z)
      → AllTests (shown_items before) (IsDefined before) items
      → AllTests g (HasFunction items g) items
  defined g fl ok = tests_defined before g items (first_addr es z) fl items (λ x i. i) ok

  -- From the static items of a program to the end of its run in one process, with any report: the
  -- items are flattened, the report is begun, suite by suite each test tells its story with the
  -- functions of its suite, and the report is ended. The conditions are that the items are laid
  -- out as the macros do it at different addresses, that the fuel covers the nesting of the
  -- imports and the number of the items, that each test has a function, and that no message is
  -- left from before.
  pub run_all-fix_list-told :
      IsFile before es z
      → AllDistinct items
      → depths es < d
      → length items ≤ suc (suc k)
      → AllTests (shown_items before) (IsDefined before) items
      → NoMessage w.run w.user
      → (g : Store) × (fix_list (suc (suc k)) d before z ≡ done (first_addr es z, g))
        × ((r : Report) × (report_init (suc (suc k)) g (some (first_addr es z)) w.report ≡ done r)
            × (run g ≡ (
                let end =
                  whole
                    (in_process call forks (suc (suc k)))
                    single
                    (told call items)
                    g
                    items
                    0
                    (with_items g (set_report w r)) in
                goes end.0 (set_report end.1 (report_done end.1.report)))))
  run_all-fix_list-told f ds dp l ok m =
      let (g, runs, fl) = fix_list-Flattened (suc (suc k)) d before es z f ds dp l in
      let (r, init) =
        report_init-ends (suc (suc k)) g (some (first_addr es z)) items w.report fl.chain l in
      (
        g,
        runs,
        (
          r,
          init,
          run_all-linked runner single (told call items) g NoMessage (HasFunction items g)
              (back g fl l) (suc (suc k)) (first_addr es z) items w r fl.chain (defined g fl ok) m l
              init,
        ),
      )

  -- From the static items of a program to the end of its run in one process with the TAP report:
  -- the items are flattened and the run comes back; the output starts with a plan for as many
  -- tests as are then counted, which are those of the program not marked to be skipped, and the
  -- return code is a pass when the counter of failures is 0 and else a failure. The conditions are
  -- that the items are laid out as the macros do it at different addresses, that the fuel covers
  -- the nesting of the imports and the number of the items, that each test has a function, that no
  -- test stands before the first suite, and that no message is left from before.
  run_all-fix_list_counted :
      IsFile before es z
      → AllDistinct items
      → depths es < d
      → length items ≤ suc (suc k)
      → AllTests (shown_items before) (IsDefined before) items
      → NoMessage w.run w.user
      → IsTap w.report
      → suite_tests (shown_items before) items ≡ []
      → (let total = tests_among (shown_items before) items in
          (g : Store) × (fix_list (suc (suc k)) d before z ≡ done (first_addr es z, g))
          × ((rc : ℕ) × ((v : World U) × (run g ≡ goes rc v)
                × (v.report.tap.test_counter ≡ total)
                × (rc ≡ (if v.report.tap.failed_test_counter == 0 then 0 else outcome_fail))
                × ((rest : Bytes) × (v.report.out
                      ≡ (w.report.out ++ (codes "1.." ++ (decimal total ++ codes "\n")))
                        ++ rest)))))
  run_all-fix_list_counted f ds dp l ok m e none_before =
      let (g, runs, fl) = fix_list-Flattened (suc (suc k)) d before es z f ds dp l in
      let first = suite_tests-same g (shown_items before) items fl.kinds in
      let all = tests_among-same g (shown_items before) items fl.kinds in
      (
        g,
        runs,
        rw all at (
            counted_run runner single (told call items) g NoMessage (HasFunction items g)
              (back g fl l) (told-CountsTests call items g) (suc (suc k)) (first_addr es z) items w
              fl.chain (defined g fl ok) m e l (first ∙ none_before)),
      )
