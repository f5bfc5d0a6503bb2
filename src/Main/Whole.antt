-- ===== src/Main/Whole.antt =====
-- src/main.c: the run of all suites.
use pcut.Common.{
  ℕ, zero, suc, ◌≤◌, ◌<◌, ◌≡◌, refl, ap, ◌∙◌, true, some, List, [], ◌∷◌, arith, length, Bool-cases,
  inl, inr, ◌==◌, if◌then◌else◌, done,
}
use pcut.Item.{Addr, Ptr, Store, is_skip, is_testsuite}
use pcut.Items.Walk.{Chain, first_real, get_real_next-first_real}
use pcut.TestRun.{World, RunState}
use pcut.Report.{report_init, report_suite_start, report_done}
use pcut.Main.Loop.{run_loop, run_all}
use pcut.Report.State.{Report}
use pcut.Main.Ends.{set_report, Exec, goes, Runner, RunMode}
use pcut.Main.Members.{
  ComesBack, with_items, suite_tests, next_suite, skip-neither, AllTests, All, suite_tests-All,
}
use pcut.Main.Judged.{judged, suite_result, run_suite-suite_result}

module _ {U : Type 0} (runner : Runner U) (mode : RunMode)
    (judge : Addr → World U → ℕ × World U) where
  pub judged-store :
      (ts : List Addr) (rc : ℕ) (w : World U) → (judged runner mode judge ts rc w).1.store ≡ w.store
  judged-store [] rc w = refl
  judged-store (a ∷ ts) rc w = judged-store ts _ (with_items w.store (judge a w).1)

  suite_result-store :
      (suite : Addr) (ts : List Addr) (w : World U)
      → (suite_result runner mode judge suite ts w).1.store ≡ w.store
  suite_result-store suite [] w = refl
  suite_result-store suite (t ∷ ts) w = judged-store (t ∷ ts) 0 _

  -- The suites of the list in their order, each with the tests behind it.
  abbrev pub whole : Store → List Addr → ℕ → World U → ℕ × World U
  whole h [] rc w = (rc, w)
  whole h (a ∷ xs) rc w =
      let r = suite_result runner mode judge a (suite_tests h xs) w in
      if is_testsuite (h a).kind
      then whole h xs (if r.0 == 0 then rc else r.0) (with_items h r.1)
      else whole h xs rc w

  module _ (h : Store) (Ready : RunState → U → Type 0) (Runs : Addr → Type 0)
      (back : ComesBack runner mode judge h Ready Runs) where
    abbrev AtEnd : ℕ × World U → Type 0
    AtEnd end = Ready end.1.run end.1.user

    -- The flags stay as they are needed.
    judged-Ready :
        (ts : List Addr) (rc : ℕ) (w : World U)
        → All Runs ts
        → Ready w.run w.user
        → AtEnd (judged runner mode judge ts rc (with_items h w))
    judged-Ready [] rc w ok ready = ready
    judged-Ready (a ∷ ts) rc w ok ready =
        judged-Ready ts _ (judge a (with_items h w)).1 ok.1 (back a w ok.0 ready).1

    pub suite_result-Ready :
        (suite : Addr) (ts : List Addr) (w : World U)
        → All Runs ts
        → Ready w.run w.user
        → AtEnd (suite_result runner mode judge suite ts (with_items h w))
    suite_result-Ready suite [] w ok ready = ready
    suite_result-Ready suite (t ∷ ts) w ok ready =
        judged-Ready (t ∷ ts) 0 (set_report w (report_suite_start (h suite) w.report)) ok ready

    abbrev whole_end : List Addr → ℕ → World U → Exec U ℕ
    whole_end xs rc w = let r = whole h xs rc w in goes r.0 r.1

    -- One suite, when the list behind it is run to its end.
    suite_round :
        (f n : ℕ) (a : Addr) (xs : List Addr) (rc : ℕ) (w : World U)
        → AllTests h Runs xs
        → Ready w.run w.user
        → is_testsuite (h a).kind ≡ true
        → Chain h (h a).next xs
        → length xs ≤ f
        → ((rc' : ℕ) (v : World U)
            → Ready v.run v.user
            → run_loop runner mode f n (next_suite h xs) rc' (with_items h v)
              ≡ whole_end xs rc' (with_items h v))
        → run_loop runner mode f (suc n) (some a) rc (with_items h w)
          ≡ whole_end (a ∷ xs) rc (with_items h w)
    unfolding run_loop
    suite_round f n a xs rc w ok ready s c l rest =
        let r = suite_result runner mode judge a (suite_tests h xs) (with_items h w) in
        let kept : r.1 ≡ with_items h r.1 =
          ap (λ x. with_items x r.1) (suite_result-store a (suite_tests h xs) (with_items h w)) in
        rw (s, run_suite-suite_result runner mode judge h Ready Runs back f a xs w ok ready c l)
          (ap (λ v. run_loop runner mode f n (next_suite h xs) (if r.0 == 0 then rc else r.0) v)
              kept
            ∙ rest (if r.0 == 0 then rc else r.0) r.1
                (suite_result-Ready a (suite_tests h xs) w (suite_tests-All h Runs xs ok) ready))

    from_suite :
        (f n : ℕ) (p : Ptr) (xs : List Addr) (rc : ℕ) (w : World U)
        → AllTests h Runs xs
        → Ready w.run w.user
        → Chain h p xs
        → length xs ≤ n
        → length xs ≤ f
        → run_loop runner mode f n (next_suite h xs) rc (with_items h w)
          ≡ whole_end xs rc (with_items h w)
    unfolding run_loop
    from_suite f n p [] rc w ok ready c l m = refl
    from_suite f zero p (a ∷ xs) rc w ok ready c l m = absurd (omega arith)
    from_suite f (suc n) p (a ∷ xs) rc w ok ready c l m =
        elim (Bool-cases (is_testsuite (h a).kind)) [
          | inl s ↦
              let at_suite : next_suite h (a ∷ xs) ≡ some a = rw s refl in
              ap (λ q. run_loop runner mode f (suc n) q rc (with_items h w)) at_suite
              ∙ suite_round f n a xs rc w ok.1 ready s c.1 (omega arith) (λ rc' v r'.
                from_suite f n (h a).next xs rc' v ok.1 r' c.1 (omega arith) (omega arith))
          | inr s ↦
              rw s
                (from_suite f (suc n) (h a).next xs rc w ok.1 ready c.1 (omega arith) (omega arith))
        ]

    from_first :
        (f n : ℕ) (p : Ptr) (xs : List Addr) (rc : ℕ) (w : World U)
        → AllTests h Runs xs
        → Ready w.run w.user
        → Chain h p xs
        → length xs ≤ n
        → length xs ≤ f
        → run_loop runner mode f n (first_real h xs) rc (with_items h w)
          ≡ whole_end xs rc (with_items h w)
    unfolding run_loop
    from_first f n p [] rc w ok ready c l m = refl
    from_first f zero p (a ∷ xs) rc w ok ready c l m = absurd (omega arith)
    from_first f (suc n) p (a ∷ xs) rc w ok ready c l m = elim (Bool-cases (is_skip (h a).kind)) [
      | inl s ↦
          rw (s, (skip-neither (h a).kind s).0)
            (from_first f (suc n) (h a).next xs rc w ok.1 ready c.1 (omega arith) (omega arith))
      | inr r ↦ elim (Bool-cases (is_testsuite (h a).kind)) [
        | inl s ↦
            let at_suite : first_real h (a ∷ xs) ≡ some a = rw r refl in
            ap (λ q. run_loop runner mode f (suc n) q rc (with_items h w)) at_suite
            ∙ suite_round f n a xs rc w ok.1 ready s c.1 (omega arith) (λ rc' v r'.
              from_suite f n (h a).next xs rc' v ok.1 r' c.1 (omega arith) (omega arith))
        | inr s ↦
            rw (r, s, get_real_next-first_real f h a xs c.1 (omega arith))
              (from_first f n (h a).next xs rc w ok.1 ready c.1 (omega arith) (omega arith))
      ]
    ]

    from_head :
        (f n : ℕ) (a : Addr) (xs : List Addr) (rc : ℕ) (w : World U)
        → AllTests h Runs (a ∷ xs)
        → Ready w.run w.user
        → Chain h (h a).next xs
        → length xs < n
        → length xs ≤ f
        → run_loop runner mode f n (some a) rc (with_items h w)
          ≡ whole_end (a ∷ xs) rc (with_items h w)
    unfolding run_loop
    from_head f zero a xs rc w ok ready c l m = absurd (omega arith)
    from_head f (suc n) a xs rc w ok ready c l m = elim (Bool-cases (is_testsuite (h a).kind)) [
      | inl s ↦
          suite_round f n a xs rc w ok.1 ready s c m
            (λ rc' v r'. from_suite f n (h a).next xs rc' v ok.1 r' c (omega arith) m)
      | inr s ↦
          rw (s, get_real_next-first_real f h a xs c m)
            (from_first f n (h a).next xs rc w ok.1 ready c (omega arith) m)
    ]

    -- The whole run reports the plan, runs every suite of the list in its order, each with the
    -- tests up to the next suite, reports the end, and ends with a failure if a suite did. Tests
    -- before the first suite are not run. The conditions are that the plan is reported, that the
    -- way to run a test comes back with an outcome for each test of the list and keeps the items
    -- and what it needs of the flags, which holds at the start, and fuel for the length of the
    -- list.
    pub run_all-whole :
        (n : ℕ) (a : Addr) (xs : List Addr) (w : World U) (r : Report)
        → AllTests h Runs (a ∷ xs)
        → Ready w.run w.user
        → Chain h (h a).next xs
        → length xs < n
        → report_init n h (some a) w.report ≡ done r
        → run_all runner mode n (some a) (with_items h w) ≡ (
            let end = whole h (a ∷ xs) 0 (with_items h (set_report w r)) in
            goes end.0 (set_report end.1 (report_done end.1.report)))
    unfolding run_all
    run_all-whole n a xs w r ok ready c l init =
        rw (init, from_head n n a xs 0 (set_report w r) ok ready c l (omega arith)) refl

    -- The same for a list that may be empty.
    pub run_all-linked :
        (n : ℕ) (first : Addr) (xs : List Addr) (w : World U) (r : Report)
        → Chain h (some first) xs
        → AllTests h Runs xs
        → Ready w.run w.user
        → length xs ≤ n
        → report_init n h (some first) w.report ≡ done r
        → run_all runner mode n (some first) (with_items h w) ≡ (
            let end = whole h xs 0 (with_items h (set_report w r)) in
            goes end.0 (set_report end.1 (report_done end.1.report)))
    run_all-linked n first [] w r c ok ready l init = cc
    run_all-linked n first (a ∷ xs) w r c ok ready l init =
        rw (c.0) (run_all-whole n a xs w r ok ready c.1 (omega arith) (rw (c.0) at init))
