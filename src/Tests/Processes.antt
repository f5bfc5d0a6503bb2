-- ===== src/Tests/Processes.antt =====
-- Tests in processes of their own, up to whole programs.
use pcut.Common.{◌≡◌, refl, false, none, some, List, [], ◌∷◌, Bytes, arith, append-nil, done}
use pcut.Item.{Addr}
use pcut.Items.Links.{Back}
use pcut.Output.{print_fail_message}
use pcut.Output.RoundTrip.{message_lines, plain_text}
use pcut.Output.Newline.{trim}
use pcut.Report.{report_init, report_test_start, report_test_done, report_done}
use pcut.Report.State.{Report}
use pcut.TestRun.{suite_at, finished}
use pcut.TestRun.Story.{story, verdict}
use pcut.TestRun.Forked.{chunks}
use pcut.Forking.Reading.{joined, AllArrive}
use pcut.Forking.Process.{Fits, Machine, Works, fork_test, fork_test-story}
use pcut.Forking.{exited}
use pcut.Main.Ends.{set_report, goes, forking}
use pcut.Main.Members.{AllTests, with_items}
use pcut.Main.Loop.{run_all}
use pcut.Main.Whole.{whole}
use pcut.Main.Forks.{in_forks, retold, FitsHere, run_all-forked}
use pcut.Tests.Items.{linked_items, linked_rest, linked-Chain}
use pcut.Tests.Stories.{call, failing_story, parent_found}
use pcut.Tests.Runs.{linked_world}

-- Everything arrives by one read.
abbrev one_read : Bytes → List Bytes
one_read [] = []
one_read (b ∷ bs) = (b ∷ bs) ∷ []

one_read-joined : (b : Bytes) → joined (one_read b) ≡ b
one_read-joined [] = refl
one_read-joined (b ∷ bs) = append-nil (b ∷ bs)

one_read-AllArrive : (b : Bytes) → AllArrive (one_read b)
one_read-AllArrive [] = tt
one_read-AllArrive (b ∷ bs) = (omega arith, tt)

abbrev pub machines : Addr → Machine
machines a = record {
  first_pipe_fails = false;
  second_pipe_fails = false;
  fork_fails = false;
  strerror = [];
  stdout = one_read;
  stderr = [];
  status = exited;
}

pub machines-Works : (a : Addr) → Works (machines a)
machines-Works a = record {
  first_pipe = refl;
  second_pipe = refl;
  fork = refl;
  entire = one_read-joined;
  arrives = one_read-AllArrive;
  quiet = refl;
  exits = λ code. refl;
}

failing_story-Fits : Fits failing_story
unfolding print_fail_message
failing_story-Fits = record {
  no_nuls = (
    (refl, (refl, (refl, (refl, tt)))),
    ((refl, (refl, (refl, (refl, tt)))), ((refl, (refl, (refl, tt))), tt)),
  );
  text = omega arith;
  messages = omega arith;
  all = omega arith;
}

fork_test-story_example :
    fork_test machines call 8 4 (with_items linked_items linked_world)
    ≡ finished (verdict failing_story) (record linked_world {
      store = linked_items;
      report =
          report_test_done
            (linked_items 4)
            (verdict failing_story)
            (some (message_lines (chunks failing_story)))
            none
            (some (plain_text (trim (chunks failing_story))))
            (report_test_start (linked_items 4) linked_world.report);
    })
fork_test-story_example =
    fork_test-story machines call machines-Works 6 linked_items 4 8 (suite_at 1) (linked_items 1)
      linked_world refl parent_found refl refl failing_story-Fits

abbrev linked_list : List Addr
linked_list = 1 ∷ linked_rest

passing_story-Fits : Fits (story call (linked_items 1) 7 0)
unfolding print_fail_message
passing_story-Fits = record {
  no_nuls = ((refl, (refl, tt)), ((refl, (refl, (refl, tt))), tt));
  text = omega arith;
  messages = omega arith;
  all = omega arith;
}

linked-AllFit :
    AllTests linked_items (FitsHere machines call linked_list linked_items 0) linked_list
linked-AllFit = (
  λ t. cc,
  (
    λ t. (refl, (7, refl, passing_story-Fits)),
    (λ t. cc, (λ t. (refl, (8, refl, failing_story-Fits)), tt)),
  ),
)

linked-Back : Back linked_items none linked_list
linked-Back = (refl, (refl, (refl, (refl, tt))))

run_all-forked_example :
    (r : Report) × (report_init 4 linked_items (some 1) linked_world.report ≡ done r)
    × (run_all (in_forks machines call 4) forking 4 (some 1) (with_items linked_items linked_world)
        ≡ (let end =
              whole
                (in_forks machines call 4)
                forking
                (retold machines call linked_list)
                linked_items
                linked_list
                0
                (with_items linked_items (set_report linked_world r)) in
            goes end.0 (set_report end.1 (report_done end.1.report))))
run_all-forked_example =
    run_all-forked machines call linked_list linked_items 0 machines-Works 2 1 linked_world
      (refl, linked-Chain) linked-Back linked-AllFit refl refl (omega arith)
