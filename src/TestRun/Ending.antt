-- ===== src/TestRun/Ending.antt =====
-- How a test ends that is run in its suite: one account of both modes, which Single and Forked read.
use pcut.Common.{ℕ, suc, Bool, true, false, not, ◌≡◌, refl, ap, ◌∙◌, Option, none, some, Bytes}
use pcut.Item.{Addr, Ptr, Func, Item, Store}
use pcut.Report.State.{Report, print}
use pcut.TestRun.{
  Called, World, SuitePtr, suite_item, ◌>>=◌, with_suite, call_test, End, returned,
  failed_assertion, run_in_suite, report_current, leave_test, hook_before_test, run_setup_teardown,
}
use pcut.TestRun.Story.{
  Stage, stage, and_then, story, outcome, settle, settle_message, call_user-settle,
  run_setup_teardown-settle, print-print,
}
use pcut.TestRun.Modes.{left, early, late, mode_world, end_of}

module _ {U : Type 0} (call : Func → U → Called U) (h : Store) (a : Addr) (sp : SuitePtr) (s : Item)
    (f : Func) (suite : suite_item h sp ≡ some s) (test : (h a).test_func ≡ some f) where
  -- the world of a running test
  abbrev running : Bool → Bool → Option Bytes → Report → U → World U
  running b flag prev r u = record {
    store = h;
    run = record {
      execute_teardown_on_failure = flag;
      report_test_result = b;
      print_test_error = not b;
      leave_means_exit = not b;
      current_test = some a;
      current_suite = sp;
      prev_message = prev;
    };
    report = r;
    user = u;
  }

  -- A failure in the tear-down function itself.
  teardown_fails :
      (b : Bool) (k : ℕ) (m : Bytes) (prev : Option Bytes) (r : Report) (u : U)
      → failed_assertion call (suc k) m (running b false prev r u)
        ≡ left b (running b false none (late b (h a) prev (some m) r) u)
  unfolding failed_assertion
  teardown_fails true k m none r u = refl
  teardown_fails true k m (some e) r u = refl
  teardown_fails false k m prev r u = refl

  abbrev pub torn_down : Bool → Report → U → Option Bytes → World U
  torn_down b r u e =
      let td = stage call s.teardown_func u in
      running b false none (late b (h a) e td.message (print td.text (early e b r))) td.user

  -- How the assertion ends behind the tear-down function.
  abbrev fail_end : Bytes → End U → End U
  fail_end m e =
      e
      >>= (λ w. report_current 1 (some m) none w)
      >>= (λ v. leave_test 1 (record v { run = record (v.run) { prev_message = none } }))

  assertion_round :
      (b : Bool) (n : ℕ) (m : Bytes) (r : Report) (u : U)
      → failed_assertion call (suc n) m (running b true none r u)
        ≡ fail_end m (
            run_setup_teardown call
              (failed_assertion call n)
              s.teardown_func
              (running b false (some m) (early (some m) b r) u))
  unfolding failed_assertion
  assertion_round true n m r u = rw suite
  assertion_round false n m r u = rw suite

  body_fails_end :
      (b : Bool) (k : ℕ) (m : Bytes) (t : Option Bytes) (r : Report) (u : U)
      → fail_end m
          (settle_message call (failed_assertion call (suc k)) (running b false (some m) r u) t)
        ≡ left b (running b false none (late b (h a) (some m) t r) u)
  unfolding report_current leave_test
  body_fails_end true k m none r u = refl
  body_fails_end false k m none r u = refl
  body_fails_end true k m (some t) r u = rw (teardown_fails true k t (some m) r u)
  body_fails_end false k m (some t) r u = rw (teardown_fails false k t (some m) r u)

  -- A failure before the tear-down.
  body_fails :
      (b : Bool) (k : ℕ) (m : Bytes) (r : Report) (u : U)
      → failed_assertion call (suc (suc k)) m (running b true none r u)
        ≡ left b (torn_down b r u (some m))
  body_fails b k m r u =
      assertion_round b (suc k) m r u
      ∙ ap (fail_end m) (
          run_setup_teardown-settle call (failed_assertion call (suc k)) s.teardown_func
            (running b false (some m) (early (some m) b r) u))
      ∙ body_fails_end b k m (stage call s.teardown_func u).message
          (print (stage call s.teardown_func u).text (early (some m) b r))
          (stage call s.teardown_func u).user

  -- The end of the run, by the message of the tear-down function.
  abbrev tail_end : Bool → Option Bytes → World U → End U
  tail_end b none w = returned w
  tail_end b (some t) w = left b w

  passes_end :
      (b : Bool) (k : ℕ) (t : Option Bytes) (r : Report) (u : U)
      → (settle_message call (failed_assertion call (suc k)) (running b false none r u) t
          >>= report_current 0 none none)
        ≡ tail_end b t (running b false none (late b (h a) none t r) u)
  unfolding report_current
  passes_end true k none r u = refl
  passes_end false k none r u = refl
  passes_end true k (some t) r u = rw (teardown_fails true k t none r u)
  passes_end false k (some t) r u = rw (teardown_fails false k t none r u)

  -- The tear-down behind a test that did not fail.
  tail_runs :
      (b : Bool) (k : ℕ) (r : Report) (u : U)
      → (run_setup_teardown call
            (failed_assertion call (suc k))
            s.teardown_func
            (running b false none r u)
          >>= report_current 0 none none)
        ≡ tail_end b (stage call s.teardown_func u).message (torn_down b r u none)
  tail_runs b k r u =
      ap (λ (e : End U). e >>= report_current 0 none none)
        (run_setup_teardown-settle call (failed_assertion call (suc k)) s.teardown_func
          (running b false none r u))
      ∙ passes_end b k (stage call s.teardown_func u).message
          (print (stage call s.teardown_func u).text (early none b r))
          (stage call s.teardown_func u).user

  abbrev with_teardown : ℕ → End U → End U
  with_teardown n e =
      e
      >>= (λ v.
          let v' : World U = record v {
            run = record (v.run) { execute_teardown_on_failure = false };
          } in
          with_suite call v'
            (λ i. run_setup_teardown call (failed_assertion call n) i.teardown_func v'))
      >>= (λ v. report_current 0 none none v)

  tail_end_of :
      (b : Bool) (t : Option Bytes) (w : World U) → tail_end b t w ≡ end_of b (outcome none t) w
  tail_end_of b none w = refl
  tail_end_of b (some t) w = refl

  -- From the end of the body on.
  body_end :
      (b : Bool) (k : ℕ) (m : Option Bytes) (r : Report) (u : U)
      → with_teardown
          (suc (suc k))
          (settle_message call (failed_assertion call (suc (suc k))) (running b true none r u) m)
        ≡ end_of b (outcome m (stage call s.teardown_func u).message) (torn_down b r u m)
  body_end b k none r u =
      rw suite (tail_runs b (suc k) r u)
      ∙ tail_end_of b (stage call s.teardown_func u).message (torn_down b r u none)
  body_end true k (some m) r u = rw (body_fails true k m r u)
  body_end false k (some m) r u = rw (body_fails false k m r u)

  abbrev with_test : ℕ → End U → End U
  with_test n e = e >>= λ v. call_test call (failed_assertion call n) (v.store a).test_func v

  abbrev body_after : Bytes → Option Bytes → U → Stage U
  body_after t m u =
      and_then call (record { text = t; message = m; user = u }) (stage call (some f))

  abbrev ending : Bool → Stage U → Report → End U
  ending b st r =
      end_of b (outcome st.message (stage call s.teardown_func st.user).message)
        (torn_down b (print st.text r) st.user st.message)

  -- From the end of the set-up on.
  setup_end :
      (b : Bool) (k : ℕ) (t : Bytes) (m : Option Bytes) (r : Report) (u : U)
      → with_teardown (suc (suc k)) (
          with_test (suc (suc k)) (
            settle_message call
              (failed_assertion call (suc (suc k)))
              (running b true none (print t r) u)
              m))
        ≡ ending b (body_after t m u) r
  setup_end b k t none r u =
      let v = running b true none (print t r) u in
      let st = stage call (some f) u in
      let fail = failed_assertion call (suc (suc k)) in
      let ran : call_test call fail (h a).test_func v ≡ settle call fail v st =
        rw test (call_user-settle call fail f v) in
      ap (with_teardown (suc (suc k))) ran
      ∙ body_end b k st.message (print st.text (print t r)) st.user
      ∙ ap
          (λ x.
            end_of b (outcome st.message (stage call s.teardown_func st.user).message)
              (torn_down b x st.user st.message))
          (print-print t st.text r)
  setup_end true k t (some m) r u = rw (body_fails true k m (print t r) u)
  setup_end false k t (some m) r u = rw (body_fails false k m (print t r) u)

  -- The whole run, whatever the last test left in the flags.
  pub run_in_suite-ending :
      (b : Bool) (k : ℕ) (e : Bool) (ct : Ptr) (cs : SuitePtr) (r : Report) (u : U)
      → run_in_suite call (suc (suc k)) a sp (mode_world b h e ct cs r u)
        ≡ ending b (story call s f u).body r
  unfolding run_in_suite hook_before_test
  run_in_suite-ending b k e ct cs r u =
      let fail = failed_assertion call (suc (suc k)) in
      let v = running b true none r u in
      let st = stage call s.setup_func u in
      rw suite (
        ap (λ x. with_teardown (suc (suc k)) (with_test (suc (suc k)) x))
          (run_setup_teardown-settle call fail s.setup_func v)
        ∙ setup_end b k st.text st.message r st.user)
