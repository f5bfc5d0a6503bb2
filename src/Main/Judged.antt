-- ===== src/Main/Judged.antt =====
-- src/main.c: what `run_suite` amounts to, for a way to run a test that comes back.
use pcut.Common.{
  ℕ, zero, suc, ◌+◌, ◌≤◌, ◌≡◌, refl, ap, ◌∙◌, true, false, none, some, List, [], ◌∷◌, arith, length,
  Bool-cases, inl, inr, ◌==◌, if◌then◌else◌, ltb,
}
use pcut.Item.{Addr, Ptr, Store, is_skip, is_test, is_testsuite}
use pcut.Items.Walk.{Chain, first_real, get_real_next-first_real}
use pcut.Report.{report_suite_start, report_suite_done}
use pcut.TestRun.{World, RunState}
use pcut.Main.Ends.{Exec, goes, Runner, RunMode, from_run, set_report, outcome_fail}
use pcut.Main.Suite.{Progress, run_item, suite_loop, leave_ok, run_suite}
use pcut.Main.Members.{suite_tests, next_suite, with_items, ComesBack, AllTests, skip-neither}

module _ {U : Type 0} (runner : Runner U) (mode : RunMode)
    (judge : Addr → World U → ℕ × World U) where
  -- The tests in their order; one failure makes the outcome a failure.
  abbrev pub judged : List Addr → ℕ → World U → ℕ × World U
  judged [] rc w = (rc, w)
  judged (a ∷ ts) rc w =
      judged ts (if (judge a w).0 == 0 then rc else outcome_fail) (with_items w.store (judge a w).1)

  abbrev pub suite_started : Addr → World U → World U
  suite_started suite w = set_report w (report_suite_start (w.store suite) w.report)

  abbrev pub suite_finished : Addr → World U → World U
  suite_finished suite w = set_report w (report_suite_done (w.store suite) w.report)

  -- A suite without tests is not reported.
  abbrev pub suite_result : Addr → List Addr → World U → ℕ × World U
  suite_result suite [] w = (0, w)
  suite_result suite (t ∷ ts) w =
      let r = judged (t ∷ ts) 0 (suite_started suite w) in (r.0, suite_finished suite r.1)

  abbrev begun : ℕ → ℕ → Progress
  begun c rc = record { is_first_test = false; total_count = c; ret_code = rc }

  module _ (h : Store) (Ready : RunState → U → Type 0) (Runs : Addr → Type 0)
      (back : ComesBack runner mode judge h Ready Runs) where
    later_tests :
        (f n : ℕ) (suite : Addr) (p : Ptr) (xs : List Addr) (c rc : ℕ) (w : World U)
        → AllTests h Runs xs
        → Ready w.run w.user
        → Chain h p xs
        → length xs ≤ n
        → length xs ≤ f
        → suite_loop runner mode f n suite (first_real h xs) (begun c rc) (with_items h w) ≡ (
            let r = judged (suite_tests h xs) rc (with_items h w) in
            goes (next_suite h xs, begun (c + length (suite_tests h xs)) r.0) r.1)
    unfolding suite_loop run_item
    later_tests f n suite p [] c rc w ok ready ch l m =
        ap (λ (k : ℕ). goes (none, begun k rc) (with_items h w)) (omega arith)
    later_tests f zero suite p (a ∷ xs) c rc w ok ready ch l m = absurd (omega arith)
    later_tests f (suc n) suite p (a ∷ xs) c rc w ok ready ch l m =
        let walk = get_real_next-first_real f h a xs ch.1 in
        let v = with_items h w in
        let j = judge a v in
        elim (Bool-cases (is_skip (h a).kind)) [
          | inl s ↦
              let k = skip-neither (h a).kind s in
              rw (s, k.0, k.1)
                (later_tests f (suc n) suite (h a).next xs c rc w ok.1 ready ch.1 (omega arith)
                  (omega arith))
          | inr r ↦ elim (Bool-cases (is_testsuite (h a).kind)) [
            | inl s ↦
                rw (r, s) (ap (λ (k : ℕ). goes (some a, begun k rc) (with_items h w)) (omega arith))
            | inr q ↦ elim (Bool-cases (is_test (h a).kind)) [
              | inl t ↦
                  let ts = suite_tests h xs in
                  let end = judged ts (if j.0 == 0 then rc else outcome_fail) (with_items h j.1) in
                  let count : c + 1 + length ts ≡ c + suc (length ts) = omega arith in
                  rw (r, q, t, (back a w (ok.0 t) ready).0, walk (omega arith))
                    (later_tests f n suite (h a).next xs (c + 1)
                        (if j.0 == 0 then rc else outcome_fail) j.1 ok.1 (back a w (ok.0 t) ready).1
                        ch.1 (omega arith) (omega arith)
                      ∙ ap (λ (k : ℕ). goes (next_suite h xs, begun k end.0) end.1) count)
              | inr t ↦
                  rw (r, q, t, walk (omega arith))
                    (later_tests f n suite (h a).next xs c rc w ok.1 ready ch.1 (omega arith)
                      (omega arith))
            ]
          ]
        ]

    abbrev fresh : Progress
    fresh = record { is_first_test = true; total_count = 0; ret_code = 0 }

    -- The end of `run_suite` by the tests.
    abbrev pub suite_end : Addr → Ptr → List Addr → World U → Exec U (Ptr × ℕ)
    suite_end suite last ts w = let r = suite_result suite ts w in goes (last, r.0) r.1

    first_tests :
        (f n : ℕ) (suite : Addr) (p : Ptr) (xs : List Addr) (w : World U)
        → AllTests h Runs xs
        → Ready w.run w.user
        → Chain h p xs
        → length xs ≤ n
        → length xs ≤ f
        → (pcut.Main.Ends.◌>>=◌
            (suite_loop runner mode f n suite (first_real h xs) fresh (with_items h w))
            (leave_ok runner mode suite))
          ≡ suite_end suite (next_suite h xs) (suite_tests h xs) (with_items h w)
    unfolding suite_loop run_item leave_ok
    first_tests f n suite p [] w ok ready ch l m = refl
    first_tests f zero suite p (a ∷ xs) w ok ready ch l m = absurd (omega arith)
    first_tests f (suc n) suite p (a ∷ xs) w ok ready ch l m =
        let walk = get_real_next-first_real f h a xs ch.1 in
        let v = suite_started suite (with_items h w) in
        let j = judge a v in
        elim (Bool-cases (is_skip (h a).kind)) [
          | inl s ↦
              let k = skip-neither (h a).kind s in
              rw (s, k.0, k.1)
                (first_tests f (suc n) suite (h a).next xs w ok.1 ready ch.1 (omega arith)
                  (omega arith))
          | inr r ↦ elim (Bool-cases (is_testsuite (h a).kind)) [
            | inl s ↦ rw (r, s) refl
            | inr q ↦ elim (Bool-cases (is_test (h a).kind)) [
              | inl t ↦
                  let counted : ltb 0 (1 + length (suite_tests h xs)) ≡ true = ground arith in
                  rw
                    (
                      r,
                      q,
                      t,
                      (back a v (ok.0 t) ready).0,
                      walk (omega arith),
                      later_tests f n suite (h a).next xs 1 (if j.0 == 0 then 0 else outcome_fail)
                          j.1 ok.1 (back a v (ok.0 t) ready).1 ch.1 (omega arith) (omega arith),
                      counted,
                    )
                    refl
              | inr t ↦
                  rw (r, q, t, walk (omega arith))
                    (first_tests f n suite (h a).next xs w ok.1 ready ch.1 (omega arith)
                      (omega arith))
            ]
          ]
        ]

    -- The test before the loop changes nothing.
    enter :
        (n : ℕ) (suite : Addr) (first : Ptr) (w : World U)
        → (elim first as (λ x. Exec U (Ptr × ℕ)) [
          | none ↦ goes (none, 0) w
          | some it ↦
              if is_testsuite (w.store it).kind
              then goes (some it, 0) w
              else pcut.Main.Ends.◌>>=◌
                  (suite_loop runner mode (suc n) (suc n) suite (some it) fresh w)
                  (leave_ok runner mode suite)
        ])
          ≡ pcut.Main.Ends.◌>>=◌
              (suite_loop runner mode (suc n) (suc n) suite first fresh w)
              (leave_ok runner mode suite)
    unfolding suite_loop leave_ok
    enter n suite none w = refl
    enter n suite (some it) w = elim (Bool-cases (is_testsuite (w.store it).kind)) [
      | inl t ↦ rw t refl
      | inr t ↦ rw t refl
    ]

    -- A suite runs its tests in their order, up to the next suite or the end of the list: it is
    -- reported as started before the first and as done behind the last, and not at all when it has
    -- no test. Its outcome is a failure if one of the tests does not pass, and else a pass.
    -- `*last` is the next suite. The conditions are that the way to run a test comes back with an
    -- outcome for each test of the list and keeps the items and what it needs of the flags, which
    -- holds at the start, and fuel for the length of the list.
    pub run_suite-suite_result :
        (f : ℕ) (suite : Addr) (xs : List Addr) (w : World U)
        → AllTests h Runs xs
        → Ready w.run w.user
        → Chain h (h suite).next xs
        → length xs ≤ f
        → run_suite runner mode f suite (with_items h w) ≡ (
            let r = suite_result suite (suite_tests h xs) (with_items h w) in
            goes (next_suite h xs, r.0) r.1)
    unfolding run_suite
    run_suite-suite_result f suite [] w ok ready ch l =
        rw (get_real_next-first_real f h suite [] ch l) refl
    run_suite-suite_result zero suite (a ∷ xs) w ok ready ch l = absurd (omega arith)
    run_suite-suite_result (suc f) suite (a ∷ xs) w ok ready ch l =
        let first = first_real h (a ∷ xs) in
        rw (get_real_next-first_real (suc f) h suite (a ∷ xs) ch l) (
          enter f suite first (with_items h w)
          ∙ first_tests (suc f) (suc f) suite (h suite).next (a ∷ xs) w ok ready ch l l)
