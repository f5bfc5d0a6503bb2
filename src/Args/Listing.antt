-- ===== src/Args/Listing.antt =====
-- src/print.c: the listing of the real items, for a program that was flattened.
use pcut.Common.{
  ℕ, zero, suc, ◌+◌, ◌≤◌, ◌≡◌, refl, sym, ap, ◌∙◌, true, false, some, List, [], ◌∷◌, ◌++◌,
  append_assoc, append-nil, pos, Bytes, codes, decimal, decimal_int, arith, AllDistinct, ◌<◌, has,
  if◌then◌else◌, done, length, Bool-cases, inl, inr,
}
use pcut.Item.{
  Kind, skip, nested_list, setup, teardown, testsuite, test, Addr, Ptr, Item, Store, is_skip,
  is_nested,
}
use pcut.Items.{get_real, fix_list}
use pcut.Items.Walk.{Chain, first_real, reals, get_real_next-first_real}
use pcut.Items.Marks.{is_marked}
use pcut.Items.Linked.{shown, Settled}
use pcut.Items.Number.{CountsFrom}
use pcut.Items.Tree.{Entries, IsFile, file, depths, first_addr}
use pcut.Items.Flatten.{Flattened, fix_list-Flattened}
use pcut.Args.{test_line, print_tests_loop, print_tests}

-- What is printed for a real item.
abbrev entry : Kind → Bytes → ℕ → Bytes
entry testsuite name n = codes "  Suite `" ++ (name ++ (codes "' [" ++ (decimal n ++ codes "]\n")))
entry test name n = codes "    Test `" ++ (name ++ (codes "' [" ++ (decimal n ++ codes "]\n")))
entry _ name n = []

-- The listing of the items as they were before they were flattened, with the numbers from `n` on.
abbrev pub listing : Store → ℕ → List Addr → Bytes
listing h n [] = []
listing h n (a ∷ xs) =
    if is_skip (shown (h a))
    then listing h n xs
    else entry (shown (h a)) (h a).name n ++ listing h (n + 1) xs

shown-not_nested : (i : Item) → is_nested (shown i) ≡ false
unfolding shown
shown-not_nested i = elim (Bool-cases (is_nested i.kind)) [
  | inl e ↦ rw e refl
  | inr e ↦ elim (Bool-cases (is_marked i)) [ inl m ↦ rw (e, m) refl | inr m ↦ rw (e, m) e ]
]

test_line-entry :
    (i : Item) (k : Kind) (name : Bytes) (n : ℕ)
    → i.kind ≡ k
    → i.name ≡ name
    → i.id ≡ pos n
    → is_skip k ≡ false
    → is_nested k ≡ false
    → test_line i ≡ some (entry k name n)
unfolding test_line decimal_int
test_line-entry i testsuite name n e f g s m = rw (e, f, g) refl
test_line-entry i test name n e f g s m = rw (e, f, g) refl
test_line-entry i setup name n e f g s m = rw e refl
test_line-entry i teardown name n e f g s m = rw e refl
test_line-entry i skip name n e f g s m = absurd (cc)
test_line-entry i nested_list name n e f g s m = absurd (cc)

module _ (w : ℕ) (g h : Store) where
  print_tests_loop-listing :
      (f : ℕ) (p : Ptr) (xs : List Addr) (n : ℕ) (out : Bytes)
      → Chain g p xs
      → ((x : Addr) → has x xs ≡ true → (g x).kind ≡ shown (h x))
      → ((x : Addr) → has x xs ≡ true → Settled (g x) (h x))
      → CountsFrom g n (reals g xs)
      → length xs ≤ f
      → length xs ≤ w
      → print_tests_loop w f g (first_real g xs) out ≡ done (some (out ++ listing h n xs))
  unfolding print_tests_loop
  print_tests_loop-listing f p [] n out c k s i l m = ap (λ t. done (some t)) (sym (append-nil out))
  print_tests_loop-listing zero p (a ∷ xs) n out c k s i l m = absurd (omega arith)
  print_tests_loop-listing (suc f) p (a ∷ xs) n out c k s i l m =
      let here : has a (a ∷ xs) ≡ true = ground arith in
      let kind : (g a).kind ≡ shown (h a) = k a here in
      let k' : (x : Addr) → has x xs ≡ true → (g x).kind ≡ shown (h x) =
        λ x j. k x (ground arith) in
      let s' : (x : Addr) → has x xs ≡ true → Settled (g x) (h x) = λ x j. s x (ground arith) in
      elim (Bool-cases (is_skip (shown (h a)))) [
        | inl t ↦
            let hidden : is_skip (g a).kind ≡ true = ap is_skip kind ∙ t in
            rw (hidden, t)
              (print_tests_loop-listing (suc f) (g a).next xs n out c.1 k' s' (rw hidden at i)
                (omega arith) (omega arith))
        | inr t ↦
            let real : is_skip (g a).kind ≡ false = ap is_skip kind ∙ t in
            let i' = rw real at i in
            let line =
              test_line-entry (g a) (shown (h a)) (h a).name n kind (s a here).name i'.0 t
                (shown-not_nested (h a)) in
            rw
              (real, t, print_tests_loop, line, get_real_next-first_real w g a xs c.1 (omega arith))
              (print_tests_loop-listing f (g a).next xs (n + 1)
                  (out ++ entry (shown (h a)) (h a).name n) c.1 k' s' i'.1 (omega arith)
                  (omega arith)
                ∙ ap (λ t. done (some t))
                    (append_assoc out (entry (shown (h a)) (h a).name n) (listing h (n + 1) xs)))
      ]

get_real-first_real :
    (w : ℕ) (g : Store) (p : Ptr) (xs : List Addr)
    → Chain g p xs
    → length xs ≤ w
    → get_real w g p ≡ done (first_real g xs)
unfolding get_real
get_real-first_real w g p [] c l = rw c refl
get_real-first_real w g p (a ∷ xs) c l = elim (Bool-cases (is_skip (g a).kind)) [
  | inl s ↦ rw (c.0, s, get_real_next-first_real w g a xs c.1 (omega arith)) refl
  | inr s ↦ rw (c.0, s) refl
]

pub Flattened-listing :
    (w : ℕ) (h g : Store) (xs : List Addr) (first : Addr)
    → Flattened h g xs first
    → length xs ≤ w
    → print_tests w g (some first) ≡ done (some (listing h 1 xs))
unfolding print_tests
Flattened-listing w h g xs first f l =
    rw (get_real-first_real w g (some first) xs f.chain l)
      (print_tests_loop-listing w g h w (some first) xs 1 [] f.chain f.kinds f.settled f.ids l l)

-- After `pcut_fix_list_get_real_head`, `pcut_print_tests` ends without a failed `assert` and
-- prints one line for each suite and test of the file and of those that it imports, in the order
-- of the source, with its name and its id; the ids count 1, 2, 3 and so on over the items that are
-- not hidden, of which set-up and tear-down items have no line. The conditions are that the items
-- are laid out as the macros do it, that they stand at different addresses, and that the fuel
-- covers the nesting of the imports and the number of the items.
fix_list-listing :
    (w d : ℕ) (h : Store) (es : Entries) (z : Addr)
    → IsFile h es z
    → AllDistinct (file es z)
    → depths es < d
    → length (file es z) ≤ w
    → (g : Store) × (fix_list w d h z ≡ done (first_addr es z, g))
      × (print_tests w g (some (first_addr es z)) ≡ done (some (listing h 1 (file es z))))
fix_list-listing w d h es z f a n l =
    let (g, runs, flat) = fix_list-Flattened w d h es z f a n l in
    (g, runs, Flattened-listing w h g (file es z) (first_addr es z) flat l)
