-- ===== src/Tests/Selection.antt =====
-- A program that is started for one test and for one suite. The tear-down item has the number 2, which no
-- item has that is run.
use pcut.Common.{◌≡◌, refl, [], ◌∷◌, ◌++◌, codes, decimal, ℕ, pos}
use pcut.Item.{Store}
use pcut.Items.Linked.{shown}
use pcut.Items.Tree.{file, flats, flat}
use pcut.Output.{print_fail_message}
use pcut.Report.Lines.{tagged}
use pcut.Report.State.{tap_handler}
use pcut.Report.Style.{suite_text}
use pcut.Report.TapStyle.{tap_style}
use pcut.TestRun.{World}
use pcut.Main.{pcut_main}
use pcut.Main.Cases.{case_of}
use pcut.Main.Collected.Suites.{behind}
use pcut.Main.Declared.{AllAlike}
use pcut.Main.Ends.{goes, outcome_pass, forking, from_result}
use pcut.Main.Forks.{in_forks, FitsHere}
use pcut.Main.Members.{AllTests, suite_tests}
use pcut.Main.Numbered.{number_of}
use pcut.Main.Plain.{started}
use pcut.Main.Program.{shown_items}
use pcut.Main.Selected.{pcut_main-one_test}
use pcut.Main.OneSuite.{pcut_main-one_suite}
use pcut.Tests.Stories.{call}
use pcut.Tests.Processes.{machines, machines-Works}
use pcut.Tests.Startup.{no_preinit, no_init, run_here}
use pcut.Tests.Programs.{
  main_items, main_world, main_entries, main-IsFile, main-AllDistinct, main_depth, main_length,
  main-Fits, source,
}

numbers :
    (number_of (shown_items main_items) 1 (file main_entries 5) 2 ≡ 1)
    × (number_of (shown_items main_items) 1 (file main_entries 5) 4 ≡ 3)
unfolding flats flat shown
numbers = (refl, refl)

pcut_main-one_test_example :
    (h : Store) × AllAlike h source (file main_entries 5)
    × ((h 4).id ≡ pos (number_of (shown_items main_items) 1 (file main_entries 5) 4))
    × (pcut_main
          (in_forks machines call 6)
          no_preinit
          no_init
          run_here
          1
          6
          5
          (codes "./a"
            ∷ (codes "-t" ++ decimal (number_of (shown_items main_items) 1 (file main_entries 5) 4))
            ∷ [])
          main_world
        ≡ from_result (run_here forking 4 (started tap_handler h main_world)))
unfolding flats flat shown
pcut_main-one_test_example =
    pcut_main-one_test (in_forks machines call 6) no_preinit no_init run_here 1 6 main_entries 5 4
      (codes "./a") main_world main-IsFile main-AllDistinct main_depth main_length refl refl refl

suite-AllFit :
    AllTests source
      (FitsHere machines call (file main_entries 5) source 0)
      (behind 2 (file main_entries 5))
unfolding flats flat shown
suite-AllFit = (λ t. cc, (λ t. (refl, (8, refl, main-Fits)), (λ t. cc, tt)))

-- The test of the suite fails, and the program passes.
one_suite_text :
    suite_text source
      (case_of call source (file main_entries 5) 0)
      tap_style
      0
      2
      (suite_tests source (behind 2 (file main_entries 5)))
    ≡ codes
        "#> Starting suite Default.\nnot ok 1 a failed\n# error: boom\n# stdio: lookbye\n#> Finished suite Default (failed 1 of 1).\n"
unfolding flats flat shown decimal tagged print_fail_message
one_suite_text = refl

pcut_main-one_suite_example :
    (v : World ℕ) × (pcut_main
        (in_forks machines call 6)
        no_preinit
        no_init
        run_here
        1
        6
        5
        (codes "./a"
          ∷ (codes "-s" ++ decimal (number_of (shown_items main_items) 1 (file main_entries 5) 2))
          ∷ [])
        main_world
      ≡ goes outcome_pass v)
    × (v.report.out
        ≡ []
          ++ suite_text source
              (case_of call source (file main_entries 5) 0)
              tap_style
              0
              2
              (suite_tests source (behind 2 (file main_entries 5))))
unfolding flats flat shown
pcut_main-one_suite_example =
    pcut_main-one_suite machines call no_preinit no_init run_here machines-Works 1 4 main_entries 5
      2 (codes "./a") main_world main-IsFile main-AllDistinct main_depth main_length refl refl refl
      suite-AllFit refl
