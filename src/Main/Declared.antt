-- ===== src/Main/Declared.antt =====
-- The suites of a program as its items declare them, with their set-up and tear-down functions, and what
-- the tests of the program depend on.
use pcut.Common.{
  ◌≡◌, refl, ap, ◌∙◌, subst, true, Option, none, some, List, [], ◌∷◌, arith, has, ◌==◌,
  if◌then◌else◌, Bool-cases, inl, inr,
}
use pcut.Item.{
  Addr, Ptr, Func, Item, Store, Kind, skip, nested_list, setup, teardown, testsuite, test,
  is_testsuite,
}
use pcut.TestRun.{Called}
use pcut.TestRun.Story.{Story, story, and_then, stage}
use pcut.TestRun.Parent.{suite_after, host, suite_fields}
use pcut.Main.Collected.Suites.{Funcs, step_funcs, gather, own, final_of, final, behind}
use pcut.Main.Collected.Final.{has-behind}

-- The items behind `set_setup_teardown_callbacks`.
abbrev pub declared : Store → List Addr → Store
declared m xs x = final m x (behind x xs)

-- Items that a run of the tests does not tell apart.
pub record Alike (i j : Item) : Type 0 where
  pub kind : i.kind ≡ j.kind
  pub name : i.name ≡ j.name
  pub test_func : i.test_func ≡ j.test_func
  pub setup_func : i.setup_func ≡ j.setup_func
  pub teardown_func : i.teardown_func ≡ j.teardown_func

abbrev pub AllAlike : Store → Store → List Addr → Type 0
AllAlike g m xs = (x : Addr) → has x xs ≡ true → Alike (g x) (m x)

step_funcs-Alike :
    (i j : Item) (k : Kind) (p : Funcs) → Alike i j → step_funcs i k p ≡ step_funcs j k p
step_funcs-Alike i j setup p a = ap (λ f. (f, p.1)) a.setup_func
step_funcs-Alike i j teardown p a = ap (λ f. (p.0, f)) a.teardown_func
step_funcs-Alike i j _ p a = refl

gather-Alike :
    (g m : Store) (p : Funcs) (xs : List Addr) → AllAlike g m xs → gather g p xs ≡ gather m p xs
gather-Alike g m p [] e = refl
gather-Alike g m p (a ∷ xs) e =
    let here = e a (ground arith) in
    let rest = λ (q : Funcs). gather-Alike g m q xs (λ x i. e x (ground arith)) in
    let same : step_funcs (g a) (g a).kind p ≡ step_funcs (m a) (m a).kind p =
      step_funcs-Alike (g a) (m a) (g a).kind p here ∙ ap (λ k. step_funcs (m a) k p) here.kind in
    let suites : is_testsuite (g a).kind ≡ is_testsuite (m a).kind = ap is_testsuite here.kind in
    elim (Bool-cases (is_testsuite (m a).kind)) [
      | inl s ↦ rw (suites, s) refl
      | inr s ↦ rw (suites, s) (rest _ ∙ ap (λ q. gather m q xs) same)
    ]

final_of-Alike :
    (i j : Item) (k : Kind) (p : Funcs) → Alike i j → Alike (final_of i k p) (final_of j k p)
final_of-Alike i j testsuite p a = record {
  kind = a.kind;
  name = a.name;
  test_func = a.test_func;
  setup_func = refl;
  teardown_func = refl;
}
final_of-Alike i j setup p a = record {
  kind = refl;
  name = a.name;
  test_func = a.test_func;
  setup_func = a.setup_func;
  teardown_func = a.teardown_func;
}
final_of-Alike i j teardown p a = record {
  kind = refl;
  name = a.name;
  test_func = a.test_func;
  setup_func = a.setup_func;
  teardown_func = a.teardown_func;
}
final_of-Alike i j skip p a = a
final_of-Alike i j nested_list p a = a
final_of-Alike i j test p a = a

pub declared-Alike :
    (g m : Store) (xs : List Addr) → AllAlike g m xs → AllAlike (declared g xs) (declared m xs) xs
declared-Alike g m xs e x i =
    let here = e x i in
    let ys = behind x xs in
    let same : gather g (own (g x)) ys ≡ gather m (own (m x)) ys =
      gather-Alike g m (own (g x)) ys (λ y j. e y (has-behind x y xs j))
      ∙ ap (λ f. gather m (f, (g x).teardown_func) ys) here.setup_func
      ∙ ap (λ f. gather m ((m x).setup_func, f) ys) here.teardown_func in
    subst (λ q. Alike (declared g xs x) (final_of (m x) (m x).kind q)) same
      (subst (λ k. Alike (declared g xs x) (final_of (m x) k (gather g (own (g x)) ys))) here.kind
        (final_of-Alike (g x) (m x) (g x).kind (gather g (own (g x)) ys) here))

final_of-next : (i : Item) (k : Kind) (p : Funcs) → (final_of i k p).next ≡ i.next
final_of-next i testsuite p = refl
final_of-next i setup p = refl
final_of-next i teardown p = refl
final_of-next i skip p = refl
final_of-next i nested_list p = refl
final_of-next i test p = refl

final_of-previous : (i : Item) (k : Kind) (p : Funcs) → (final_of i k p).previous ≡ i.previous
final_of-previous i testsuite p = refl
final_of-previous i setup p = refl
final_of-previous i teardown p = refl
final_of-previous i skip p = refl
final_of-previous i nested_list p = refl
final_of-previous i test p = refl

final_of-id : (i : Item) (k : Kind) (p : Funcs) → (final_of i k p).id ≡ i.id
final_of-id i testsuite p = refl
final_of-id i setup p = refl
final_of-id i teardown p = refl
final_of-id i skip p = refl
final_of-id i nested_list p = refl
final_of-id i test p = refl

pub declared-id : (g : Store) (xs : List Addr) (x : Addr) → (declared g xs x).id ≡ (g x).id
declared-id g xs x = final_of-id (g x) (g x).kind (gather g (own (g x)) (behind x xs))

pub declared-next : (g : Store) (xs : List Addr) (x : Addr) → (declared g xs x).next ≡ (g x).next
declared-next g xs x = final_of-next (g x) (g x).kind (gather g (own (g x)) (behind x xs))

pub declared-previous :
    (g : Store) (xs : List Addr) (x : Addr) → (declared g xs x).previous ≡ (g x).previous
declared-previous g xs x = final_of-previous (g x) (g x).kind (gather g (own (g x)) (behind x xs))

pub declared-kind_skip :
    (m : Store) (xs : List Addr) (x : Addr) → (m x).kind ≡ skip → (declared m xs x).kind ≡ skip
declared-kind_skip m xs x e =
    ap (λ k. (final_of (m x) k (gather m (own (m x)) (behind x xs))).kind) e ∙ e

pub declared-kind_testsuite :
    (m : Store) (xs : List Addr) (x : Addr)
    → (m x).kind ≡ testsuite
    → (declared m xs x).kind ≡ testsuite
declared-kind_testsuite m xs x e =
    ap (λ k. (final_of (m x) k (gather m (own (m x)) (behind x xs))).kind) e ∙ e

-- The story of a test depends on its suite by the functions of the suite alone.
story-Alike :
    {U : Type 0} (call : Func → U → Called U) (s t : Item) (f : Func) (u : U)
    → Alike s t
    → story call s f u ≡ story call t f u
story-Alike {U} call s t f u a =
    let told : Option Func → Option Func → Story U = λ first last.
      let body = and_then call (stage call first u) (stage call (some f)) in
      record { body = body; teardown = stage call last body.user } in
    ap (λ x. told x s.teardown_func) a.setup_func ∙ ap (told t.setup_func) a.teardown_func

abbrev Within : Ptr → List Addr → Type 0
Within none all = Unit {0}
Within (some s) all = has s all ≡ true

module _ (g m : Store) (all : List Addr) (e : AllAlike g m all) where
  suite_after-same :
      (cur : Ptr) (x : Addr) → has x all ≡ true → suite_after g cur x ≡ suite_after m cur x
  suite_after-same cur x i = ap (λ k. if is_testsuite k then some x else cur) (e x i).kind

  suite_after-Within :
      (cur : Ptr) (x : Addr) → Within cur all → has x all ≡ true → Within (suite_after g cur x) all
  suite_after-Within cur x w i = elim (Bool-cases (is_testsuite (g x).kind)) [
    | inl s ↦ rw s i
    | inr s ↦ rw s w
  ]

  host-same :
      (xs : List Addr) (cur : Ptr) (a : Addr)
      → ((x : Addr) → has x xs ≡ true → has x all ≡ true)
      → Within cur all
      → (host g cur xs a ≡ host m cur xs a) × Within (host g cur xs a) all
  host-same [] cur a sub w = (refl, w)
  host-same (x ∷ xs) cur a sub w =
      let i = sub x (ground arith) in
      let same = suite_after-same cur x i in
      let within = suite_after-Within cur x w i in
      let rest = host-same xs (suite_after g cur x) a (λ y j. sub y (ground arith)) within in
      elim (Bool-cases (x == a)) [
        | inl t ↦ rw t (same, within)
        | inr t ↦ rw t (rest.0 ∙ ap (λ c. host m c xs a) same, rest.1)
      ]

  suite_fields-story :
      {U : Type 0} (call : Func → U → Called U) (p : Ptr) (f : Func) (u : U)
      → Within p all
      → story call (suite_fields g p) f u ≡ story call (suite_fields m p) f u
  suite_fields-story call none f u w = refl
  suite_fields-story call (some s) f u w = story-Alike call (g s) (m s) f u (e s w)

  -- The story of a test of the list in its suite.
  pub host-story :
      {U : Type 0} (call : Func → U → Called U) (a : Addr) (f : Func) (u : U)
      → story call (suite_fields g (host g none all a)) f u
        ≡ story call (suite_fields m (host m none all a)) f u
  host-story call a f u =
      let h = host-same all none a (λ x i. i) tt in
      suite_fields-story call (host g none all a) f u h.1
      ∙ ap (λ p. story call (suite_fields m p) f u) h.0
