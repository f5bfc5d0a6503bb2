-- ===== src/Main/SameText.antt =====
-- src/main.c with src/report/tap.c: stores of items with the same report.
use pcut.Common.{
  ℕ, ◌+◌, ◌≡◌, refl, ap, ◌∙◌, true, List, [], ◌∷◌, ◌++◌, Bytes, arith, length, has, Bool-cases, inl,
  inr, if◌then◌else◌, ◌==◌,
}
use pcut.Item.{Addr, Item, Store, is_testsuite, is_test}
use pcut.Report.Counted.{fault}
use pcut.Report.Style.{Case, Style, failures, cases_text, suite_text}
use pcut.Main.Members.{suite_tests}
use pcut.Main.Written.{suites_text, document}

pub has-suite_tests :
    (h : Store) (xs : List Addr) (x : Addr) → has x (suite_tests h xs) ≡ true → has x xs ≡ true
has-suite_tests h [] x i = i
has-suite_tests h (a ∷ xs) x i = elim (Bool-cases (is_testsuite (h a).kind)) [
  | inl s ↦ let j : has x [] ≡ true = rw s at i in cc
  | inr s ↦ elim (Bool-cases (is_test (h a).kind)) [
    | inl t ↦
        let j : has x (a ∷ suite_tests h xs) ≡ true = rw (s, t) at i in
        elim (Bool-cases (x == a)) [
          | inl e ↦ ground arith
          | inr e ↦
              let k : has x (suite_tests h xs) ≡ true = ground arith in
              let l = has-suite_tests h xs x k in ground arith
        ]
    | inr t ↦
        let k : has x (suite_tests h xs) ≡ true = rw (s, t) at i in
        let l = has-suite_tests h xs x k in ground arith
  ]
]

-- What the report has of an item.
pub record Retold (i j : Item) (c d : Case) : Type 0 where
  pub kind : i.kind ≡ j.kind
  pub name : i.name ≡ j.name
  pub told : c ≡ d

module _ (g h : Store) (tg th : Addr → Case) (style : Style) where
  abbrev pub AllRetold : List Addr → Type 0
  AllRetold xs = (x : Addr) → has x xs ≡ true → Retold (g x) (h x) (tg x) (th x)

  failures-same : (ts : List Addr) → AllRetold ts → failures tg ts ≡ failures th ts
  failures-same [] e = refl
  failures-same (a ∷ ts) e =
      ap (λ (c : Case). fault c.outcome + failures tg ts) (e a (ground arith)).told
      ∙ ap (λ n. fault (th a).outcome + n) (failures-same ts (λ x i. e x (ground arith)))

  cases_text-same :
      (k : ℕ) (ts : List Addr)
      → AllRetold ts
      → cases_text g tg style k ts ≡ cases_text h th style k ts
  cases_text-same k [] e = refl
  cases_text-same k (a ∷ ts) e =
      let here = e a (ground arith) in
      ap (λ n. style.case_text n (tg a) (k + 1) ++ cases_text g tg style (k + 1) ts) here.name
      ∙ ap (λ c. style.case_text (h a).name c (k + 1) ++ cases_text g tg style (k + 1) ts) here.told
      ∙ ap (λ t. style.case_text (h a).name (th a) (k + 1) ++ t)
          (cases_text-same (k + 1) ts (λ x i. e x (ground arith)))

  pub suite_text-same :
      (k : ℕ) (s : Addr) (ts : List Addr)
      → (g s).name ≡ (h s).name
      → AllRetold ts
      → suite_text g tg style k s ts ≡ suite_text h th style k s ts
  suite_text-same k s [] n e = refl
  suite_text-same k s (t ∷ ts) n e =
      let all = t ∷ ts in
      let text : Bytes → Bytes → ℕ → Bytes = λ name cases failed.
        style.suite_start name ++ (cases ++ style.suite_end name failed (length all)) in
      ap (λ x. text x (cases_text g tg style k all) (failures tg all)) n
      ∙ ap (λ x. text (h s).name x (failures tg all)) (cases_text-same k all e)
      ∙ ap (text (h s).name (cases_text h th style k all)) (failures-same all e)

  pub suite_tests-retold : (xs : List Addr) → AllRetold xs → suite_tests g xs ≡ suite_tests h xs
  suite_tests-retold [] e = refl
  suite_tests-retold (a ∷ xs) e =
      let here = e a (ground arith) in
      ap
        (λ k.
          if is_testsuite k
          then []
          else if is_test k
          then a ∷ suite_tests g xs
          else suite_tests g xs)
        here.kind
      ∙ ap (λ ts. if is_testsuite (h a).kind then [] else if is_test (h a).kind then a ∷ ts else ts)
          (suite_tests-retold xs (λ x i. e x (ground arith)))

  suites_text-same :
      (k : ℕ) (xs : List Addr)
      → AllRetold xs
      → suites_text g tg style k xs ≡ suites_text h th style k xs
  suites_text-same k [] e = refl
  suites_text-same k (a ∷ xs) e =
      let here = e a (ground arith) in
      let later : AllRetold xs = λ x i. e x (ground arith) in
      let ts = suite_tests g xs in
      let n = k + (if is_testsuite (h a).kind then length ts else 0) in
      let rest = suites_text h th style n xs in
      ap
        (λ q.
          (if is_testsuite q then suite_text g tg style k a ts else [])
          ++ suites_text g tg style (k + (if is_testsuite q then length ts else 0)) xs)
        here.kind
      ∙ ap (λ t. (if is_testsuite (h a).kind then suite_text g tg style k a ts else []) ++ t)
          (suites_text-same n xs later)
      ∙ ap (λ t. (if is_testsuite (h a).kind then t else []) ++ rest)
          (suite_text-same k a ts here.name (λ x i. later x (has-suite_tests g xs x i)))
      ∙ ap
          (λ (us : List Addr).
            (if is_testsuite (h a).kind then suite_text h th style k a us else [])
            ++ suites_text h th style (k + (if is_testsuite (h a).kind then length us else 0)) xs)
          (suite_tests-retold xs later)

  pub document-same :
      (all failed : ℕ) (xs : List Addr)
      → AllRetold xs
      → document g tg style all failed xs ≡ document h th style all failed xs
  document-same all failed xs e =
      ap (λ t. style.plan all ++ (t ++ style.summary failed all)) (suites_text-same 0 xs e)
