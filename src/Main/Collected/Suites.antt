-- ===== src/Main/Collected/Suites.antt =====
-- `set_setup_teardown_callbacks` of src/main.c, item by item.
use pcut.Common.{
  ◌≡◌, refl, ap, ◌∙◌, true, false, Option, none, some, List, [], ◌∷◌, arith, has, AllDistinct, ◌==◌,
  if◌then◌else◌, Bool-cases, inl, inr,
}
use pcut.Item.{
  Addr, Ptr, Func, Item, Store, Kind, skip, nested_list, setup, teardown, testsuite, test,
  is_testsuite,
}
use pcut.Main.Collected.{collect, round_of, round, round_of-unrelated, Apart}

-- The set-up and tear-down function of a suite.
abbrev pub Funcs : Type 0
Funcs = Option Func × Option Func

abbrev pub with_funcs : Item → Funcs → Item
with_funcs it p = record it { setup_func = p.0; teardown_func = p.1 }

abbrev pub step_funcs : Item → Kind → Funcs → Funcs
step_funcs it setup p = (it.setup_func, p.1)
step_funcs it teardown p = (p.0, it.teardown_func)
step_funcs it _ p = p

-- Those that stand before the next suite; the last of each kind counts.
abbrev pub gather : Store → Funcs → List Addr → Funcs
gather h p [] = p
gather h p (a ∷ xs) =
    if is_testsuite (h a).kind then p else gather h (step_funcs (h a) (h a).kind p) xs

-- An item at the end, by its kind: a suite has its functions, and what defined them is hidden.
abbrev pub final_of : Item → Kind → Funcs → Item
final_of it testsuite p = with_funcs it p
final_of it setup p = record it { kind = skip }
final_of it teardown p = record it { kind = skip }
final_of it _ p = it

abbrev pub final : Store → Addr → List Addr → Item
final h x ys = final_of (h x) (h x).kind (gather h ((h x).setup_func, (h x).teardown_func) ys)

-- The items behind one of the list.
abbrev pub behind : Addr → List Addr → List Addr
behind x [] = []
behind x (a ∷ xs) = if x == a then xs else behind x xs

abbrev pub Outside : Ptr → List Addr → Type 0
Outside none xs = Unit {0}
Outside (some s) xs = has s xs ≡ false

has-apart : (x s : Addr) (xs : List Addr) → has x xs ≡ true → has s xs ≡ false → (x == s) ≡ false
has-apart x s xs i o = elim (Bool-cases (x == s)) [
  | inl e ↦ let same : x ≡ s = ground arith in cc
  | inr e ↦ e
]

pub Outside-Apart :
    (active : Ptr) (x : Addr) (xs : List Addr)
    → Outside active xs
    → has x xs ≡ true
    → Apart active x
Outside-Apart none x xs o i = tt
Outside-Apart (some s) x xs o i = has-apart x s xs i o

round_of-Apart :
    (h : Store) (active : Ptr) (a : Addr) (k : Kind) (x : Addr)
    → (x == a) ≡ false
    → Apart active x
    → Apart (round_of h active a k).0 x
round_of-Apart h active a testsuite x e d = e
round_of-Apart h active a setup x e d = d
round_of-Apart h active a teardown x e d = d
round_of-Apart h active a skip x e d = d
round_of-Apart h active a nested_list x e d = d
round_of-Apart h active a test x e d = d

pub Outside-tail :
    (active : Ptr) (a : Addr) (xs : List Addr) → Outside active (a ∷ xs) → Outside active xs
Outside-tail none a xs o = tt
Outside-tail (some s) a xs o = ground arith

pub round_of-Outside :
    (h : Store) (active : Ptr) (a : Addr) (k : Kind) (xs : List Addr)
    → has a xs ≡ false
    → Outside active (a ∷ xs)
    → Outside (round_of h active a k).0 xs
round_of-Outside h active a testsuite xs d o = d
round_of-Outside h active a setup xs d o = Outside-tail active a xs o
round_of-Outside h active a teardown xs d o = Outside-tail active a xs o
round_of-Outside h active a skip xs d o = Outside-tail active a xs o
round_of-Outside h active a nested_list xs d o = Outside-tail active a xs o
round_of-Outside h active a test xs d o = Outside-tail active a xs o

-- What is neither in the list nor the active suite stays.
pub collect-others :
    (h : Store) (active : Ptr) (xs : List Addr) (x : Addr)
    → has x xs ≡ false
    → Apart active x
    → collect h active xs x ≡ h x
collect-others h active [] x o d = refl
collect-others h active (a ∷ xs) x o d =
    let q = round_of h active a (h a).kind in
    let other : (x == a) ≡ false = ground arith in
    ap (λ (r : Ptr × Store). collect r.1 r.0 xs x) (round h active a)
    ∙ collect-others q.1 q.0 xs x (ground arith) (round_of-Apart h active a (h a).kind x other d)
    ∙ round_of-unrelated h active a (h a).kind x other d

pub gather-same :
    (g h : Store) (p : Funcs) (xs : List Addr)
    → ((x : Addr) → has x xs ≡ true → g x ≡ h x)
    → gather g p xs ≡ gather h p xs
gather-same g h p [] e = refl
gather-same g h p (a ∷ xs) e =
    let rest = gather-same g h (step_funcs (h a) (h a).kind p) xs (λ x i. e x (ground arith)) in
    rw (e a (ground arith), rest) refl

-- A round on an item that is not in the rest of the list leaves the rest as it is.
pub round_of-rest :
    (h : Store) (active : Ptr) (a : Addr) (k : Kind) (xs : List Addr)
    → has a xs ≡ false
    → Outside active xs
    → (x : Addr) → has x xs ≡ true
    → (round_of h active a k).1 x ≡ h x
round_of-rest h active a k xs d o x i =
    round_of-unrelated h active a k x (has-apart x a xs i d) (Outside-Apart active x xs o i)

abbrev pub own : Item → Funcs
own it = (it.setup_func, it.teardown_func)

-- One more function for the suite at hand.
module _ (h : Store) (s a : Addr) (xs : List Addr) (other : (s == a) ≡ false) (d : has a xs ≡ false)
    (rest : has s xs ≡ false)
    (ih : (g : Store) → collect g (some s) xs s ≡ with_funcs (g s) (gather g (own (g s)) xs)) where
  changed :
      (k : Kind) (p : Funcs)
      → (round_of h (some s) a k).1 s ≡ with_funcs (h s) p
      → collect (round_of h (some s) a k).1 (some s) xs s ≡ with_funcs (h s) (gather h p xs)
  changed k p e =
      let g = (round_of h (some s) a k).1 in
      ih g
      ∙ ap (λ it. with_funcs it (gather g (own it) xs)) e
      ∙ ap (λ q. with_funcs (h s) q) (gather-same g h p xs (round_of-rest h (some s) a k xs d rest))

  self : (s == s) ≡ true
  self = ground arith

  by_kind :
      (k : Kind)
      → (h a).kind ≡ k
      → collect (round_of h (some s) a k).1 (round_of h (some s) a k).0 xs s
        ≡ with_funcs (h s) (gather h (own (h s)) (a ∷ xs))
  by_kind testsuite e = collect-others h (some a) xs s rest other ∙ rw e refl
  by_kind setup e =
      changed setup ((h a).setup_func, (h s).teardown_func) (rw (other, self) refl) ∙ rw e refl
  by_kind teardown e =
      changed teardown ((h s).setup_func, (h a).teardown_func) (rw (other, self) refl) ∙ rw e refl
  by_kind skip e = ih h ∙ rw e refl
  by_kind nested_list e = ih h ∙ rw e refl
  by_kind test e = ih h ∙ rw e refl

-- The suite at hand gets the functions that stand before the next one.
pub collect-suite :
    (h : Store) (s : Addr) (xs : List Addr)
    → AllDistinct xs
    → has s xs ≡ false
    → collect h (some s) xs s ≡ with_funcs (h s) (gather h (own (h s)) xs)
collect-suite h s [] d o = refl
collect-suite h s (a ∷ xs) d o =
    let rest : has s xs ≡ false = ground arith in
    ap (λ (r : Ptr × Store). collect r.1 r.0 xs s) (round h (some s) a)
    ∙ by_kind h s a xs (ground arith) d.0 rest (λ g. collect-suite g s xs d.1 rest) (h a).kind refl
