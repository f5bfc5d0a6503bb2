-- ===== src/Tests/Reports.antt =====
-- A program that is started with the XML report, and in one process.
use pcut.Common.{ℕ, ◌≡◌, refl, [], ◌∷◌, ◌++◌, codes, decimal, ◌==◌, if◌then◌else◌}
use pcut.Items.Walk.{tests_among}
use pcut.Output.{print_fail_message}
use pcut.Report.Lines.{tagged}
use pcut.TestRun.{World}
use pcut.Item.{Store}
use pcut.Report.{report_done}
use pcut.Report.State.{tap_handler}
use pcut.Report.Counted.{planned}
use pcut.Main.Members.{AllTests, with_items}
use pcut.Main.Whole.{whole}
use pcut.Main.Stories.{told, in_process, HasFunction}
use pcut.Main.Declared.{AllAlike}
use pcut.Main.Plain.{started}
use pcut.Main.InProcess.{pcut_main-told}
use pcut.Tests.Runs.{forks}
use pcut.Main.{pcut_main}
use pcut.Main.Ends.{goes, outcome_fail, single, set_report}
use pcut.Main.Forks.{in_forks}
use pcut.Main.Verdicts.{failing_among}
use pcut.Main.Cases.{case_of, verdict_of}
use pcut.Main.Written.{document}
use pcut.Report.XmlDocument.{xml_style}
use pcut.Main.FromMacros.{pcut_main-program_xml}
use pcut.Macros.Layout.{entries_of, entry_of}
use pcut.Items.Linked.{shown}
use pcut.Items.Tree.{file, flats, flat}
use pcut.Tests.Stories.{call}
use pcut.Tests.Processes.{machines, machines-Works}
use pcut.Tests.Startup.{no_preinit, no_init, run_here}
use pcut.Tests.Programs.{
  main_world, main_entries, main-IsFile, main-AllDistinct, main_depth, main_length, source,
  main-AllFit, main_program, main_file, program_source, main_program-Holds,
}

-- The text that the program prints.
one_xml_document :
    document source
      (case_of call source (file main_entries 5) 0)
      xml_style
      1
      1
      (file main_entries 5)
    ≡ codes
        "<?xml version=\"1.0\"?>\n<report tests-total=\"1\">\n\t<suite name=\"Default\">\n\t\t<testcase name=\"a\" status=\"fail\">\n\t\t\t<error-message><![CDATA[boom\n]]></error-message>\n\t\t\t<standard-output><![CDATA[lookbye\n]]></standard-output>\n\t\t</testcase><!-- a -->\n\t</suite><!-- Default: 1 / 1 -->\n</report>\n"
unfolding flats flat shown decimal tagged print_fail_message
one_xml_document = refl

pcut_main-program_xml_example :
    (v : World ℕ) × (pcut_main
        (in_forks machines call 6)
        no_preinit
        no_init
        run_here
        1
        6
        5
        (codes "./a" ∷ codes "-x" ∷ [])
        main_world
      ≡ goes
          (if failing_among program_source (verdict_of call program_source main_file 0) main_file
              == 0
            then 0
            else outcome_fail)
          v)
    × (v.report.out
        ≡ []
          ++ document program_source
              (case_of call program_source main_file 0)
              xml_style
              (tests_among program_source main_file)
              (failing_among program_source (verdict_of call program_source main_file 0) main_file)
              main_file)
unfolding entries_of entry_of
pcut_main-program_xml_example =
    pcut_main-program_xml machines call no_preinit no_init run_here machines-Works 1 4 main_program
      5 (codes "./a") main_world main_program-Holds refl main-AllDistinct main_depth main_length
      main-AllFit refl

main-AllDefined : AllTests source (HasFunction (file main_entries 5) source) (file main_entries 5)
unfolding flats flat shown
main-AllDefined = (λ t. cc, (λ t. cc, (λ t. cc, (λ t. (refl, (8, refl)), (λ t. cc, tt)))))

pcut_main-told_example :
    (h : Store) × AllAlike h source (file main_entries 5)
    × (pcut_main
          (in_process call forks 6)
          no_preinit
          no_init
          run_here
          1
          6
          5
          (codes "./a" ∷ codes "-u" ∷ [])
          main_world
        ≡ (let r =
              planned
                (tests_among source (file main_entries 5))
                (started tap_handler h main_world).report in
            let end =
              whole
                (in_process call forks 6)
                single
                (told call (file main_entries 5))
                h
                (file main_entries 5)
                0
                (with_items h (set_report main_world r)) in
            goes end.0 (set_report end.1 (report_done end.1.report))))
pcut_main-told_example =
    pcut_main-told call forks no_preinit no_init run_here 1 4 main_entries 5 (codes "./a")
      main_world main-IsFile main-AllDistinct main_depth main_length refl main-AllDefined refl
