-- ===== src/Main/Cases.antt =====
-- src/os/unix.c and src/run.c: what is reported of a test that runs in its suite, in stores of items
-- that do not differ for a test.
use pcut.Common.{
  ℕ, ◌+◌, Option, subst, ◌≡◌, refl, sym, ap, ◌∙◌, true, some, none, List, [], ◌∷◌, arith, has,
  if◌then◌else◌,
}
use pcut.Item.{Addr, Item, Func, Store, is_test}
use pcut.Report.Counted.{fault}
use pcut.TestRun.{Called, World}
use pcut.TestRun.Story.{Story, story, verdict}
use pcut.TestRun.Parent.{host, suite_fields}
use pcut.Output.RoundTrip.{message_lines, plain_text}
use pcut.Output.Newline.{trim}
use pcut.Report.{report_test_start}
use pcut.TestRun.Forked.{chunks}
use pcut.Forking.Process.{Machine, Fits}
use pcut.Main.Members.{AllTests, with_items}
use pcut.Main.Forks.{retold, Fresh, FitsHere}
use pcut.Main.Verdicts.{Tells, failing_among}
use pcut.Main.Declared.{AllAlike, host-story}
use pcut.Report.State.{Report}
use pcut.Report.{report_test_done}
use pcut.Report.Style.{Case, case_report}

-- What the report is told of a test by its story in its suite.
abbrev case_by : {U : Type 0} → (Func → U → Called U) → Item → U → Option Func → Case
case_by call s u none = record { outcome = 0; messages = []; extra = [] }
case_by call s u (some f) =
    let st = story call s f u in
    record {
      outcome = verdict st;
      messages = message_lines (chunks st);
      extra = plain_text (trim (chunks st));
    }

abbrev pub case_of : {U : Type 0} → (Func → U → Called U) → Store → List Addr → U → Addr → Case
case_of call d xs u a = case_by call (suite_fields d (host d none xs a)) u (d a).test_func

abbrev pub verdict_of : {U : Type 0} → (Func → U → Called U) → Store → List Addr → U → Addr → ℕ
verdict_of call d xs u a = (case_of call d xs u a).outcome

module _ (machines : Addr → Machine) {U : Type 0} (call : Func → U → Called U) (xs : List Addr)
    (h : Store) (u : U) where
  pub retold-Tells :
      Tells
        (retold machines call xs)
        h
        (Fresh machines call u)
        (FitsHere machines call xs h u)
        (verdict_of call h xs u)
  retold-Tells a w (i, (f, tf, fits)) (m, v) =
      let p : Item = suite_fields h (host h none xs a) in
      let ran : (retold machines call xs a (with_items h w)).0 ≡ verdict (story call p f w.user) =
        simp tf in
      ran ∙ ap (λ x. verdict (story call p f x)) v ∙ sym (ap (λ q. (case_by call p u q).outcome) tf)

  pub retold-case_report :
      (a : Addr) (w : World U)
      → FitsHere machines call xs h u a
      → Fresh machines call u w.run w.user
      → (retold machines call xs a (with_items h w)).1.report
        ≡ case_report h (case_of call h xs u) a w.report
  retold-case_report a w (i, (f, tf, fits)) (m, v) =
      let p : Item = suite_fields h (host h none xs a) in
      let told : Case → Report = λ c.
        report_test_done (h a) c.outcome (some c.messages) none (some c.extra)
          (report_test_start (h a) w.report) in
      let ran : (retold machines call xs a (with_items h w)).1.report
          ≡ told (case_by call p w.user (some f)) =
        simp tf in
      ran
      ∙ ap (λ x. told (case_by call p x (some f))) v
      ∙ sym (ap (λ q. told (case_by call p u q)) tf)

-- Tests that are alike in two stores.
module _ (machines : Addr → Machine) {U : Type 0} (call : Func → U → Called U) (all : List Addr)
    (h d : Store) (u : U) (e : AllAlike h d all) where
  pub tests-Alike :
      (xs : List Addr)
      → ((x : Addr) → has x xs ≡ true → has x all ≡ true)
      → AllTests d (FitsHere machines call all d u) xs
      → AllTests h (FitsHere machines call all h u) xs
  tests-Alike [] sub ok = tt
  tests-Alike (a ∷ xs) sub ok =
      let i = sub a (ground arith) in
      (
        λ t.
            let (j, (f, tf, fits)) = ok.0 (ap (λ k. is_test k) (sym (e a i).kind) ∙ t) in
            (
              j,
              (f, (e a i).test_func ∙ tf, subst Fits (sym (host-story h d all e call a f u)) fits),
            ),
        tests-Alike xs (λ x m. sub x (ground arith)) ok.1,
      )

  pub case_of-Alike :
      (a : Addr) → has a all ≡ true → case_of call h all u a ≡ case_of call d all u a
  case_of-Alike a i =
      ap (case_by call (suite_fields h (host h none all a)) u) ((e a i).test_func)
      ∙ by_story ((d a).test_func)
    where
      by_story :
          (f : Option Func)
          → case_by call (suite_fields h (host h none all a)) u f
            ≡ case_by call (suite_fields d (host d none all a)) u f
      by_story none = refl
      by_story (some f) =
          ap
            (λ (st : Story U). record {
              outcome = verdict st;
              messages = message_lines (chunks st);
              extra = plain_text (trim (chunks st));
            })
            (host-story h d all e call a f u)

  pub failing-Alike :
      (xs : List Addr)
      → ((x : Addr) → has x xs ≡ true → has x all ≡ true)
      → failing_among h (verdict_of call h all u) xs ≡ failing_among d (verdict_of call d all u) xs
  failing-Alike [] sub = refl
  failing-Alike (a ∷ xs) sub =
      let i = sub a (ground arith) in
      ap
        (λ k.
          (if is_test k then fault (verdict_of call h all u a) else 0)
          + failing_among h (verdict_of call h all u) xs)
        (e a i).kind
      ∙ ap
          (λ o.
            (if is_test (d a).kind then fault o else 0)
            + failing_among h (verdict_of call h all u) xs)
          (ap (λ (c : Case). c.outcome) (case_of-Alike a i))
      ∙ ap (λ n. (if is_test (d a).kind then fault (verdict_of call d all u a) else 0) + n)
          (failing-Alike xs (λ x m. sub x (ground arith)))
