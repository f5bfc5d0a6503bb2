-- ===== src/Tests/Programs.antt =====
-- A program from its macros to its return code.
use pcut.Common.{
  ℕ, done, ◌≤◌, ◌<◌, AllDistinct, length, ◌≡◌, refl, none, some, List, [], ◌∷◌, ◌++◌, codes,
  decimal, arith, ◌==◌, if◌then◌else◌,
}
use pcut.Item.{Addr, Store}
use pcut.Items.Walk.{tests_among}
use pcut.Output.{print_fail_message}
use pcut.Report.Lines.{tagged}
use pcut.TestRun.{World}
use pcut.TestRun.Story.{story}
use pcut.TestRun.Parent.{host, suite_fields}
use pcut.Forking.Process.{Fits}
use pcut.Macros.{
  item_of, main_item, pcut_init, pcut_test_after, pcut_test, Source, declares, init_item,
  default_suite_item,
}
use pcut.Main.{pcut_main}
use pcut.Main.Ends.{goes, ends, outcome_pass, outcome_fail}
use pcut.Main.Members.{AllTests, suite_tests}
use pcut.Main.Forks.{in_forks, FitsHere}
use pcut.Main.Program.{shown_items}
use pcut.Main.Declared.{declared}
use pcut.Main.Verdicts.{failing_among}
use pcut.Main.ListOnly.{pcut_main-listing}
use pcut.Args.Listing.{listing}
use pcut.Report.State.{tap_handler}
use pcut.Items.{fix_list}
use pcut.Main.Cases.{case_of, verdict_of}
use pcut.Main.Written.{document}
use pcut.Report.TapStyle.{tap_style}
use pcut.Main.FromMacros.{pcut_main-program}
use pcut.Macros.Layout.{Holds, HoldsImport, entries_of, entry_of}
use pcut.Items.Linked.{shown}
use pcut.Items.Tree.{
  Entries, nil, behind, plain, IsFile, IsStatic, IsEntry, file, first_addr, flats, flat, depths,
  depth,
}
use pcut.Tests.Stories.{call}
use pcut.Tests.Runs.{linked_world}
use pcut.Tests.Processes.{machines, machines-Works}
use pcut.Tests.Startup.{no_preinit, no_init, run_here}

-- A program with one suite, its tear-down function and a test that fails.
abbrev pub main_items : Store
main_items a =
    if a == 1
    then init_item
    else if a == 2
    then default_suite_item 1
    else if a == 3
    then item_of (some 2) (pcut_test_after 9)
    else if a == 4
    then item_of (some 3) (pcut_test (codes "a") 8 [])
    else main_item (some 4) []

abbrev pub main_world : World ℕ
main_world = record linked_world { store = main_items }

abbrev pub main_entries : Entries
main_entries = behind (behind (behind (behind nil (plain 1)) (plain 2)) (plain 3)) (plain 4)

pub main-IsFile : IsFile main_items main_entries 5
unfolding IsStatic IsEntry
main-IsFile = record {
  closes = refl;
  previous = refl;
  entries = (refl, (refl, (refl, (refl, tt, refl), refl), refl), refl);
}

pub main-AllDistinct : AllDistinct (file main_entries 5)
unfolding flats flat
main-AllDistinct = (refl, (refl, (refl, (refl, (refl, tt)))))

pub main_depth : depths main_entries < 1
unfolding depths depth
main_depth = omega arith

pub main_length : length (file main_entries 5) ≤ 6
unfolding flats flat
main_length = omega arith

-- The items with the functions of their suites.
abbrev pub source : Store
source = declared (shown_items main_items) (file main_entries 5)

pub main-Fits :
    Fits (story call (suite_fields source (host source none (file main_entries 5) 4)) 8 0)
unfolding print_fail_message flats flat shown
main-Fits = record {
  no_nuls = (
    (refl, (refl, (refl, (refl, tt)))),
    ((refl, (refl, (refl, (refl, tt)))), ((refl, (refl, (refl, tt))), tt)),
  );
  text = omega arith;
  messages = omega arith;
  all = omega arith;
}

pub main-AllFit :
    AllTests source (FitsHere machines call (file main_entries 5) source 0) (file main_entries 5)
unfolding flats flat shown
main-AllFit = (λ t. cc, (λ t. cc, (λ t. cc, (λ t. (refl, (8, refl, main-Fits)), (λ t. cc, tt)))))

pub none_first : suite_tests source (file main_entries 5) ≡ []
unfolding flats flat shown
none_first = refl

-- One test, which fails.
one_failure :
    failing_among source (verdict_of call source (file main_entries 5) 0) (file main_entries 5) ≡ 1
unfolding flats flat shown
one_failure = refl

-- The text that the program prints.
one_document :
    document source
      (case_of call source (file main_entries 5) 0)
      tap_style
      1
      1
      (file main_entries 5)
    ≡ codes
        "1..1\n#> Starting suite Default.\nnot ok 1 a failed\n# error: boom\n# stdio: lookbye\n#> Finished suite Default (failed 1 of 1).\n#> Done: 1 of 1 tests failed.\n"
unfolding flats flat shown decimal tagged print_fail_message
one_document = refl

pcut_main-listing_example :
    (g : Store) × (fix_list 6 1 main_items 5 ≡ done (first_addr main_entries 5, g))
    × (pcut_main
          (in_forks machines call 6)
          no_preinit
          no_init
          run_here
          1
          6
          5
          (codes "./a" ∷ codes "-l" ∷ [])
          main_world
        ≡ ends outcome_pass (record main_world {
          store = g;
          report = record (main_world.report) {
            report_ops = some tap_handler;
            out = [] ++ listing main_items 1 (file main_entries 5);
          };
        }))
pcut_main-listing_example =
    pcut_main-listing (in_forks machines call 6) no_preinit no_init run_here 1 6 main_entries 5
      (codes "./a") main_world main-IsFile main-AllDistinct main_depth main_length refl

-- The same program in its macros.
abbrev pub main_program : Source
main_program =
    declares (declares (pcut_init 1 2) 3 (pcut_test_after 9)) 4 (pcut_test (codes "a") 8 [])

abbrev pub main_file : List Addr
main_file = file (entries_of main_program) 5

abbrev pub program_source : Store
program_source = declared (shown_items main_items) main_file

pub main_program-Holds : Holds main_items main_program
unfolding Holds HoldsImport
main_program-Holds = (refl, (refl, (refl, refl), tt), tt)

pcut_main-program_example :
    (v : World ℕ) × (pcut_main
        (in_forks machines call 6)
        no_preinit
        no_init
        run_here
        1
        6
        5
        (codes "./a" ∷ [])
        main_world
      ≡ goes
          (if failing_among program_source (verdict_of call program_source main_file 0) main_file
              == 0
            then 0
            else outcome_fail)
          v)
    × (v.report.tap.test_counter ≡ tests_among program_source main_file)
    × (v.report.tap.failed_test_counter
        ≡ failing_among program_source (verdict_of call program_source main_file 0) main_file)
    × (v.report.out
        ≡ []
          ++ document program_source
              (case_of call program_source main_file 0)
              tap_style
              (tests_among program_source main_file)
              (failing_among program_source (verdict_of call program_source main_file 0) main_file)
              main_file)
unfolding entries_of entry_of
pcut_main-program_example =
    pcut_main-program machines call no_preinit no_init run_here machines-Works 1 4 main_program 5
      (codes "./a") main_world main_program-Holds refl main-AllDistinct main_depth main_length
      main-AllFit refl
