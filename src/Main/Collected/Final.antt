-- ===== src/Main/Collected/Final.antt =====
-- `set_setup_teardown_callbacks` of src/main.c: the whole list.
use pcut.Common.{
  ℕ, zero, suc, ◌≤◌, ◌≡◌, refl, sym, ap, ◌∙◌, true, false, none, some, List, [], ◌∷◌, arith, length,
  has, AllDistinct, ◌==◌, Bool-cases, inl, inr, done,
}
use pcut.Item.{Addr, Ptr, Store, Kind, skip, nested_list, setup, teardown, testsuite, test}
use pcut.Items.Walk.{Chain}
use pcut.Main.Callbacks.{set_setup_teardown_callbacks}
use pcut.Main.Collected.{collect, round_of, round, Apart, callbacks_loop-head}
use pcut.Main.Collected.Suites.{
  final, final_of, gather, behind, own, Outside, Outside-tail, round_of-Outside, round_of-rest,
  collect-others, collect-suite, gather-same,
}

head-Apart : (active : Ptr) (a : Addr) (xs : List Addr) → Outside active (a ∷ xs) → Apart active a
head-Apart none a xs o = tt
head-Apart (some s) a xs o = ground arith

-- The item of a round itself.
round_of-own :
    (h : Store) (active : Ptr) (a : Addr) (k : Kind) (xs ys : List Addr)
    → AllDistinct xs
    → has a xs ≡ false
    → Apart active a
    → collect (round_of h active a k).1 (round_of h active a k).0 xs a
      ≡ final_of (h a) k (gather h (own (h a)) xs)
round_of-own h active a testsuite xs ys d o p = collect-suite h a xs d o
round_of-own h none a setup xs ys d o p =
    let self : (a == a) ≡ true = ground arith in
    collect-others (round_of h none a setup).1 none xs a o p ∙ rw self refl
round_of-own h (some s) a setup xs ys d o p =
    let self : (a == a) ≡ true = ground arith in
    collect-others (round_of h (some s) a setup).1 (some s) xs a o p ∙ rw (self, p) refl
round_of-own h none a teardown xs ys d o p =
    let self : (a == a) ≡ true = ground arith in
    collect-others (round_of h none a teardown).1 none xs a o p ∙ rw self refl
round_of-own h (some s) a teardown xs ys d o p =
    let self : (a == a) ≡ true = ground arith in
    collect-others (round_of h (some s) a teardown).1 (some s) xs a o p ∙ rw (self, p) refl
round_of-own h active a skip xs ys d o p = collect-others h active xs a o p
round_of-own h active a nested_list xs ys d o p = collect-others h active xs a o p
round_of-own h active a test xs ys d o p = collect-others h active xs a o p

pub has-behind : (x y : Addr) (xs : List Addr) → has y (behind x xs) ≡ true → has y xs ≡ true
has-behind x y [] i = i
has-behind x y (a ∷ xs) i = elim (Bool-cases (x == a)) [
  | inl e ↦ let j : has y xs ≡ true = rw e at i in ground arith
  | inr e ↦ let j : has y xs ≡ true = has-behind x y xs (rw e at i) in ground arith
]

final-same :
    (g h : Store) (x : Addr) (ys : List Addr)
    → g x ≡ h x
    → ((y : Addr) → has y ys ≡ true → g y ≡ h y)
    → final g x ys ≡ final h x ys
final-same g h x ys e f =
    ap (λ it. final_of it it.kind (gather g (own it) ys)) e
    ∙ ap (λ q. final_of (h x) (h x).kind q) (gather-same g h (own (h x)) ys f)

collect-final :
    (h : Store) (active : Ptr) (xs : List Addr) (x : Addr)
    → AllDistinct xs
    → Outside active xs
    → has x xs ≡ true
    → collect h active xs x ≡ final h x (behind x xs)
collect-final h active [] x d o i = cc
collect-final h active (a ∷ xs) x d o i =
    let q = round_of h active a (h a).kind in
    ap (λ (r : Ptr × Store). collect r.1 r.0 xs x) (round h active a) ∙ elim (Bool-cases (x == a)) [
      | inl e ↦
          let same : x ≡ a = ground arith in
          rw e (
            ap (λ y. collect q.1 q.0 xs y) same
            ∙ round_of-own h active a (h a).kind xs xs d.1 d.0 (head-Apart active a xs o)
            ∙ ap (λ y. final h y xs) (sym same))
      | inr e ↦
          let later : has x xs ≡ true = ground arith in
          let rest = round_of-rest h active a (h a).kind xs d.0 (Outside-tail active a xs o) in
          rw e (
            collect-final q.1 q.0 xs x d.1 (round_of-Outside h active a (h a).kind xs d.0 o) later
            ∙ final-same q.1 h x (behind x xs) (rest x later) (λ y j. rest y (has-behind x y xs j)))
    ]

-- `set_setup_teardown_callbacks` ends; each suite then has as its set-up function that of the last
-- such item before the next suite, or its own one when there is none, and the same for the
-- tear-down function; the items that defined these functions are hidden, and every other item is
-- as it was. The conditions are that the items of the list stand at different addresses, and fuel
-- for its length.
pub set_setup_teardown_callbacks-final :
    (w : ℕ) (h : Store) (a : Addr) (xs : List Addr)
    → Chain h (h a).next xs
    → AllDistinct (a ∷ xs)
    → suc (length xs) ≤ w
    → (g : Store) × (set_setup_teardown_callbacks w h (some a) ≡ done g)
      × ((x : Addr) → has x (a ∷ xs) ≡ true → g x ≡ final h x (behind x (a ∷ xs)))
      × ((x : Addr) → has x (a ∷ xs) ≡ false → g x ≡ h x)
unfolding set_setup_teardown_callbacks
set_setup_teardown_callbacks-final zero h a xs c d l = absurd (omega arith)
set_setup_teardown_callbacks-final (suc w) h a xs c d l = (
  collect h none (a ∷ xs),
  callbacks_loop-head (suc w) w h none a xs c (omega arith) (omega arith),
  λ x i. collect-final h none (a ∷ xs) x d tt i,
  λ x o. collect-others h none (a ∷ xs) x o tt,
)
