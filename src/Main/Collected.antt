-- ===== src/Main/Collected.antt =====
-- `set_setup_teardown_callbacks` of src/main.c: what it leaves in the items.
pub mod Suites
pub mod Final
use pcut.Common.{
  ℕ, zero, suc, ◌+◌, ◌≤◌, ◌≡◌, refl, sym, ap, ◌∙◌, Bool, true, false, Option, none, some, List, [],
  ◌∷◌, arith, length, has, AllDistinct, ◌==◌, if◌then◌else◌, Bool-cases, inl, inr, done,
}
use pcut.Item.{
  Addr, Ptr, Func, Item, Store, Kind, write, skip, nested_list, setup, teardown, testsuite, test,
  is_skip,
}
use pcut.Items.Walk.{Chain, first_real, get_real_next-first_real, Chain-same}
use pcut.Main.Callbacks.{callback_round, callbacks_loop, set_setup, set_teardown, mark_skip}

-- The rounds over all items, one after the other.
abbrev pub collect : Store → Ptr → List Addr → Store
collect h active [] = h
collect h active (a ∷ xs) = let r = callback_round h active a in collect r.1 r.0 xs

-- A round by the kind of the item.
abbrev pub round_of : Store → Ptr → Addr → Kind → Ptr × Store
round_of h active a testsuite = (some a, h)
round_of h active a setup = (active, mark_skip (set_setup h active (h a).setup_func) a)
round_of h active a teardown = (active, mark_skip (set_teardown h active (h a).teardown_func) a)
round_of h active a _ = (active, h)

pub round :
    (h : Store) (active : Ptr) (a : Addr)
    → callback_round h active a ≡ round_of h active a (h a).kind
unfolding callback_round
round h active a = by_kind (h a).kind
  where
    by_kind :
        (k : Kind)
        → (elim k as (λ x. Ptr × Store) [
          | testsuite ↦ (some a, h)
          | setup ↦ (active, mark_skip (set_setup h active (h a).setup_func) a)
          | teardown ↦ (active, mark_skip (set_teardown h active (h a).teardown_func) a)
          | skip ↦ (active, h)
          | nested_list ↦ (active, h)
          | test ↦ (active, h)
        ])
          ≡ round_of h active a k
    by_kind testsuite = refl
    by_kind setup = refl
    by_kind teardown = refl
    by_kind skip = refl
    by_kind nested_list = refl
    by_kind test = refl

-- A round keeps the links.
round_of-next :
    (h : Store) (active : Ptr) (a : Addr) (k : Kind) (x : Addr)
    → ((round_of h active a k).1 x).next ≡ (h x).next
round_of-next h active a testsuite x = refl
round_of-next h none a setup x = ground arith
round_of-next h (some s) a setup x = ground arith
round_of-next h none a teardown x = ground arith
round_of-next h (some s) a teardown x = ground arith
round_of-next h active a skip x = refl
round_of-next h active a nested_list x = refl
round_of-next h active a test x = refl

-- and every item but its own and the active suite.
abbrev pub Apart : Ptr → Addr → Type 0
Apart none x = Unit {0}
Apart (some s) x = (x == s) ≡ false

pub round_of-unrelated :
    (h : Store) (active : Ptr) (a : Addr) (k : Kind) (x : Addr)
    → (x == a) ≡ false
    → Apart active x
    → (round_of h active a k).1 x ≡ h x
round_of-unrelated h active a testsuite x e d = refl
round_of-unrelated h none a setup x e d = rw e refl
round_of-unrelated h (some s) a setup x e d = rw (e, d) refl
round_of-unrelated h none a teardown x e d = rw e refl
round_of-unrelated h (some s) a teardown x e d = rw (e, d) refl
round_of-unrelated h active a skip x e d = refl
round_of-unrelated h active a nested_list x e d = refl
round_of-unrelated h active a test x e d = refl

skip-same :
    (h : Store) (active : Ptr) (a : Addr) (k : Kind)
    → is_skip k ≡ true
    → round_of h active a k ≡ (active, h)
skip-same h active a skip e = refl
skip-same h active a _ e = cc

-- The chain behind the item of a round.
round-Chain :
    (h : Store) (active : Ptr) (a : Addr) (xs : List Addr)
    → Chain h (h a).next xs
    → (let r = callback_round h active a in Chain r.1 (r.1 a).next xs)
round-Chain h active a xs c =
    let r = callback_round h active a in
    let links : (x : Addr) → (r.1 x).next ≡ (h x).next = λ x.
      ap (λ (q : Ptr × Store). (q.1 x).next) (round h active a)
      ∙ round_of-next h active a (h a).kind x in
    rw (links a) (Chain-same r.1 h (h a).next xs links c)

-- The loop makes these rounds and ends.
pub callbacks_loop-collect :
    (w n : ℕ) (h : Store) (active p : Ptr) (xs : List Addr)
    → Chain h p xs
    → length xs ≤ n
    → length xs ≤ w
    → callbacks_loop w n h active (first_real h xs) ≡ done (collect h active xs)
unfolding callbacks_loop
callbacks_loop-collect w n h active p [] c l m = refl
callbacks_loop-collect w zero h active p (a ∷ xs) c l m = absurd (omega arith)
callbacks_loop-collect w (suc n) h active p (a ∷ xs) c l m =
    let r = callback_round h active a in
    elim (Bool-cases (is_skip (h a).kind)) [
      | inl s ↦
          let same : callback_round h active a ≡ (active, h) =
            round h active a ∙ skip-same h active a (h a).kind s in
          rw (s, same)
            (callbacks_loop-collect w (suc n) h active (h a).next xs c.1 (omega arith)
              (omega arith))
      | inr s ↦
          let chain = round-Chain h active a xs c.1 in
          rw (s, get_real_next-first_real w r.1 a xs chain (omega arith))
            (callbacks_loop-collect w n r.1 r.0 (r.1 a).next xs chain (omega arith) (omega arith))
    ]

-- From the first item of the list on, which may be hidden.
pub callbacks_loop-head :
    (w n : ℕ) (h : Store) (active : Ptr) (a : Addr) (xs : List Addr)
    → Chain h (h a).next xs
    → length xs ≤ n
    → length xs ≤ w
    → callbacks_loop w (suc n) h active (some a) ≡ done (collect h active (a ∷ xs))
unfolding callbacks_loop
callbacks_loop-head w n h active a xs c l m =
    let r = callback_round h active a in
    let chain = round-Chain h active a xs c in
    rw (get_real_next-first_real w r.1 a xs chain m)
      (callbacks_loop-collect w n r.1 r.0 (r.1 a).next xs chain l m)
