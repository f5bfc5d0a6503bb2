-- ===== src/Report/Counted.antt =====
-- The counters of src/report/tap.c behind the calls of src/report/report.c.
use pcut.Common.{
  ℕ, ◌+◌, ◌≤◌, ◌≡◌, refl, sym, ap, ◌∙◌, Option, none, some, Bytes, arith, ◌==◌, if◌then◌else◌,
  Bool-cases, inl, inr, done, codes, decimal, ◌++◌, length, List, [], append-nil, append_assoc,
}
use pcut.Item.{Addr, Ptr, Item, Store}
use pcut.Items.Walk.{Chain, tests_among, count_tests-tests_among}
use pcut.Report.{
  report_init, report_suite_start, report_suite_done, report_test_start, report_test_done,
  report_done,
}
use pcut.Report.State.{Report, Handler, tap_handler, xml_handler, print}
use pcut.Report.Xml.{xml_init}
use pcut.Report.Tap.{
  tap_init, tap_suite_start, tap_suite_done, tap_test_start, tap_test_done, tap_done,
}

-- From `r` to `s` the TAP report has counted `n` tests and `m` failures and printed something.
pub record Counted (r s : Report) (n m : ℕ) : Type 0 where
  pub handler : s.report_ops ≡ some tap_handler
  pub tests : s.tap.test_counter ≡ r.tap.test_counter + n
  pub failed : s.tap.failed_test_counter ≡ r.tap.failed_test_counter + m
  pub printed : Bytes
  pub out : s.out ≡ r.out ++ printed

abbrev pub IsTap : Report → Type 0
IsTap r = r.report_ops ≡ some tap_handler

out-join : (r s t a b : Bytes) → s ≡ r ++ a → t ≡ s ++ b → t ≡ r ++ (a ++ b)
out-join r s t a b p q = q ∙ ap (λ x. x ++ b) p ∙ append_assoc r a b

pub Counted-join :
    {r s t : Report} {n m i j k l : ℕ}
    → Counted r s n m
    → Counted s t i j
    → k ≡ n + i
    → l ≡ m + j
    → Counted r t k l
Counted-join {r} {s} {t} a b p q = record {
  printed = a.printed ++ b.printed;
  out = out-join r.out s.out t.out a.printed b.printed a.out b.out;
  handler = b.handler;
  tests = omega (arith, a.tests, b.tests);
  failed = omega (arith, a.failed, b.failed);
}

-- The operations that are called when the TAP report is registered.
module _ (r : Report) (e : IsTap r) where
  report_init-tap : (w : ℕ) (h : Store) (p : Ptr) → report_init w h p r ≡ tap_init w h p r
  unfolding report_init
  report_init-tap w h p =
      let q : r ≡ record r { report_ops = some tap_handler } =
        ap (λ (m : Option Handler). record r { report_ops = m }) e in
      ap (λ s. report_init w h p s) q ∙ ap (λ s. tap_init w h p s) (sym q)

  pub report_suite_start-tap : (suite : Item) → report_suite_start suite r ≡ tap_suite_start suite r
  unfolding report_suite_start
  report_suite_start-tap suite = rw (e, report_suite_start) refl

  pub report_suite_done-tap : (suite : Item) → report_suite_done suite r ≡ tap_suite_done suite r
  unfolding report_suite_done
  report_suite_done-tap suite = rw (e, report_suite_done) refl

  pub report_test_start-tap : (test : Item) → report_test_start test r ≡ tap_test_start test r
  unfolding report_test_start
  report_test_start-tap test = rw (e, report_test_start) refl

  pub report_test_done-tap :
      (test : Item) (outcome : ℕ) (m t x : Option Bytes)
      → report_test_done test outcome m t x r ≡ tap_test_done test outcome m t x r
  unfolding report_test_done
  report_test_done-tap test outcome m t x = rw (e, report_test_done) refl

  pub report_done-tap : report_done r ≡ tap_done r
  unfolding report_done
  report_done-tap = rw (e, report_done) refl

-- What keeps the handler and the two counters.
same :
    (r s : Report) (text : Bytes)
    → IsTap s
    → s.tap.test_counter ≡ r.tap.test_counter
    → s.tap.failed_test_counter ≡ r.tap.failed_test_counter
    → s.out ≡ r.out ++ text
    → Counted r s 0 0
same r s text e t f o = record {
  handler = e;
  tests = omega (arith, t);
  failed = omega (arith, f);
  printed = text;
  out = o;
}

pub none-Counted : (r : Report) → IsTap r → Counted r r 0 0
none-Counted r e = same r r [] e refl refl (sym (append-nil r.out))

pub print-Counted : (text : Bytes) (r : Report) → IsTap r → Counted r (print text r) 0 0
unfolding print
print-Counted text r e = same r (print text r) text e refl refl refl

pub report_suite_start-Counted :
    (suite : Item) (r : Report) → IsTap r → Counted r (report_suite_start suite r) 0 0
unfolding tap_suite_start print
report_suite_start-Counted suite r e =
    rw (report_suite_start-tap r e suite) (same r (tap_suite_start suite r) _ e refl refl refl)

suite_done-Counted : (suite : Item) (r : Report) → IsTap r → Counted r (tap_suite_done suite r) 0 0
unfolding tap_suite_done print
suite_done-Counted suite r e = elim (Bool-cases (r.tap.failed_tests_in_suite == 0)) [
  | inl z ↦ rw z (same r _ _ e refl refl refl)
  | inr z ↦ rw z (same r _ _ e refl refl refl)
]

pub report_suite_done-Counted :
    (suite : Item) (r : Report) → IsTap r → Counted r (report_suite_done suite r) 0 0
report_suite_done-Counted suite r e =
    rw (report_suite_done-tap r e suite) (suite_done-Counted suite r e)

done-Counted : (r : Report) → IsTap r → Counted r (tap_done r) 0 0
unfolding tap_done print
done-Counted r e = elim (Bool-cases (r.tap.failed_test_counter == 0)) [
  | inl z ↦ rw z (same r _ _ e refl refl refl)
  | inr z ↦ rw z (same r _ _ e refl refl refl)
]

pub report_done-Counted : (r : Report) → IsTap r → Counted r (report_done r) 0 0
report_done-Counted r e = rw (report_done-tap r e) (done-Counted r e)

pub report_test_start-Counted :
    (test : Item) (r : Report) → IsTap r → Counted r (report_test_start test r) 1 0
unfolding tap_test_start
report_test_start-Counted test r e = rw (report_test_start-tap r e test) (record {
  handler = e;
  tests = refl;
  failed = omega arith;
  printed = [];
  out = sym (append-nil r.out);
})

-- one failure more, for any outcome but a pass
abbrev pub fault : ℕ → ℕ
fault outcome = if outcome == 0 then 0 else 1

test_done-Counted :
    (test : Item) (outcome : ℕ) (e t x : Option Bytes) (r : Report)
    → IsTap r
    → Counted r (tap_test_done test outcome e t x r) 0 (fault outcome)
unfolding tap_test_done print
test_done-Counted test outcome e t x r tap = elim (Bool-cases (outcome == 0)) [
  | inl z ↦ rw z (same r _ _ tap refl refl refl)
  | inr z ↦
      rw z (record { handler = tap; tests = omega arith; failed = refl; printed = _; out = refl })
]

pub report_test_done-Counted :
    (test : Item) (outcome : ℕ) (e t x : Option Bytes) (r : Report)
    → IsTap r
    → Counted r (report_test_done test outcome e t x r) 0 (fault outcome)
report_test_done-Counted test outcome e t x r tap =
    rw (report_test_done-tap r tap test outcome e t x) (test_done-Counted test outcome e t x r tap)

-- The report behind the plan.
abbrev pub planned : ℕ → Report → Report
planned total r =
    print (codes "1.." ++ (decimal total ++ codes "\n"))
      (record r { tap = record (r.tap) { test_counter = 0; failed_test_counter = 0 } })

pub report_init-planned :
    (w : ℕ) (h : Store) (p : Ptr) (xs : List Addr) (r : Report)
    → IsTap r
    → Chain h p xs
    → length xs ≤ w
    → report_init w h p r ≡ done (planned (tests_among h xs) r)
unfolding tap_init
report_init-planned w h p xs r e c l =
    report_init-tap r e w h p ∙ rw (count_tests-tests_among w h p xs c l) refl

abbrev pub opened : ℕ → Report → Report
opened total r =
    print
      (codes "<?xml version=\"1.0\"?>\n"
        ++ (codes "<report tests-total=\"" ++ (decimal total ++ codes "\">\n")))
      (record r { xml = record (r.xml) { test_counter = 0 } })

pub report_init-opened :
    (w : ℕ) (h : Store) (p : Ptr) (xs : List Addr) (r : Report)
    → Chain h p xs
    → length xs ≤ w
    → report_init w h p (record r { report_ops = some xml_handler })
      ≡ done (opened (tests_among h xs) (record r { report_ops = some xml_handler }))
unfolding report_init xml_init
report_init-opened w h p xs r c l = rw (count_tests-tests_among w h p xs c l) refl

-- Every report can be begun, with fuel for the length of the list.
pub report_init-ends :
    (w : ℕ) (h : Store) (p : Ptr) (xs : List Addr) (r : Report)
    → Chain h p xs
    → length xs ≤ w
    → (s : Report) × (report_init w h p r ≡ done s)
unfolding report_init
report_init-ends w h p xs r c l = by_handler r.report_ops
  where
    by_handler :
        (m : Option Handler)
        → (s : Report) × (report_init w h p (record r { report_ops = m }) ≡ done s)
    by_handler none = (_, refl)
    by_handler (some tap_handler) =
        (_, report_init-planned w h p xs (record r { report_ops = some tap_handler }) refl c l)
    by_handler (some xml_handler) = (_, report_init-opened w h p xs r c l)
