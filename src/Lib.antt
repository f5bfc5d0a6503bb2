-- ===== src/Lib.antt =====
-- PCUT, a unit-testing library for plain C.
--
-- A test program is a set of source files in which macros lay out items: suites, tests, set-up and
-- tear-down functions, and imports of other files. `pcut_main` links the items into one list, reads
-- the command line, and runs the tests suite by suite. Each test runs in a process of its own or,
-- on demand, in the process that reports it. A process of a test writes its failures to its
-- standard output in an encoding, which the reporting process parses. Reports are printed through a
-- table of operations, of which there are two, TAP and XML.
--
-- Common: numbers, lists, and `Run`, the result of a loop that runs on fuel.
-- Item: include/pcut/datadef.h. A store maps addresses to items; each write of the code is a write
--   to the store, so aliasing is that of the code.
-- Macros: include/pcut/tests.h, the items that the macros define; Macros/Names is about their names
--   and include/pcut/prevs.h, the table of numbers behind these; Macros/Layout joins them with the
--   description of static items in Items/Tree, and Macros/Begun is about PCUT_INIT.
-- Items: src/list.c, in its order of functions. Items/Tree describes the static items of the files;
--   Items/Flatten, with Items/Linking, Items/Splice and Items/Writes below it, is about
--   `pcut_fix_list_get_real_head`, Items/Marks and Items/Hide about `detect_skipped_tests`,
--   Items/Number about `set_ids`, and Items/Walk about the walks over the list.
-- Output: `pcut_print_fail_message` and `parse_command_output` of src/report/report.c.
--   Output/RoundTrip is about output that fits the buffers, Output/Limits about output that does
--   not.
-- Report: the rest of src/report/report.c, with the operations of src/report/tap.c in Report/Tap
--   and of src/report/xml.c in Report/Xml; Report/Lines holds the `print_by_lines` of both, and
--   Report/Counted follows the TAP counters through the calls. Report/Style has a text by its
--   parts, and Report/Document and Report/XmlDocument are about those of TAP and of XML. What is
--   printed to the standard output is collected in the state.
-- TestRun: src/run.c. `exit` and `longjmp` are ways for a step to end. TestRun/Story is the
--   abstract view of a test, which TestRun/Single and TestRun/Forked compare with the code by the
--   lemmas of TestRun/Ending on the modes of TestRun/Modes; TestRun/Parent is about
--   `pcut_find_parent_suite`; TestRun/Captured joins the process of the test with the parser.
-- Args: src/os/stdc.c, with the reading of printed numbers in Args/Numbers,
--   `pcut_is_arg_with_number`, and src/print.c, with the listing of a program in Args/Listing.
-- Main: src/main.c, with `pcut_find_by_id` in Main/Find, `run_suite` in Main/Suite,
--   `set_setup_teardown_callbacks` in Main/Callbacks and the main loop in Main/Loop; Main/Collected
--   is about the callbacks, Main/Selected about the option for one test, Main/OneSuite about that
--   for one suite and Main/ListOnly about the listing. Main/Judged, on the lists of Main/Members,
--   is about one suite and Main/Whole about all of them, for any way to run a test that comes back;
--   Main/Ids is about the search by number. Main/Stories runs the tests by `pcut_run_test_single`.
--   Main/Tally, Main/Counters and Main/Verdicts follow the tests and failures of a whole run, and
--   Main/Written, Main/WrittenXml and Main/SameText the text that it prints. Main/Program goes from
--   the static items of a program to the end of its run and Main/Plain through `pcut_main` without
--   options or with `-x`. Main/Static and Main/StaticXml join all of it by Main/Ran: Main/Declared
--   has the suites as the source declares them, Main/Cases what is reported of their tests and
--   Main/Prepared the list that the main loop gets. Main/FromMacros starts from the macros of a
--   test program. Main/InProcess is about the option `-u`.
-- Assert: src/assert.c. Asserts: include/pcut/asserts.h.
-- Forking: src/os/unix.c. Forking/Reading is about `read_all`, Forking/Trimmed and Output/Newline
--   about the newline that it removes, and Forking/Capture about `pcut_run_test_forking`;
--   Forking/Process runs the process of a test and the one that reports it, and Main/Forks a whole
--   program that way.
-- Windows: src/os/windows.c, with its reader thread in Windows/Reading, the calls that can fail in
--   Windows/Calls and the command line in Windows/Commands. Generic: src/os/generic.c, by `system`,
--   in the variant for Unix. Helenos: src/os/helenos.c. What they report stands in the modules
--   Reported below them.
-- Playground: contrib/playground/assert_that.c, with the conditions of its matchers in
--   Playground/Holding. Playground/Typed is assert_that_fmt.c, whose matchers Playground/Meanings
--   describes; Playground/Writes, Playground/Listed and Playground/Described compare the two.
--   Playground/ByType is assert_that_generic.c, with Playground/Comparing about its types.
-- Preproc: src/preproc.c; Preproc/Pieces cuts its input into identifiers.
-- Tests: concrete items, and the theorems at them.
--
-- A loop over a list runs on fuel, and the theorems ask for as much fuel as the list is long. The
-- recursion of `pcut_fix_list_get_real_head` has fuel for the nesting of the imports. The parser's
-- fuel is the length of its input. `pcut_failed_assertion` can call itself through the tear-down
-- function; two rounds are enough.
--
-- The functions of the user, the hooks, in the main loop the ways to run a test, and in src/os the
-- system calls are parameters. A function of the user prints and then returns or fails; one that
-- crashes or hangs is not modelled in src/run.c, only as an exit status. Not modelled are
-- src/helper.c, which wraps vsnprintf, and contrib/playground/macros.c, which counts arguments of
-- macros. Counters of tests are numbers without overflow.
pub mod Common
pub mod Item
pub mod Items
pub mod Output
pub mod Report
pub mod TestRun
pub mod Args
pub mod Main
pub mod Assert
pub mod Asserts
pub mod Forking
pub mod Windows
pub mod Generic
pub mod Helenos
pub mod Macros
pub mod Playground
pub mod Preproc
pub mod Tests
