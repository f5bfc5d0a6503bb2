-- ===== src/Items/Walk.antt =====
-- Chains of `next` pointers, and the walks of src/list.c over their real items.
use pcut.Common.{
  ℕ, zero, suc, ◌+◌, ◌≤◌, ◌≡◌, refl, ap, ◌∙◌, true, false, none, some, List, [], ◌∷◌, arith,
  if◌then◌else◌, done, length, Bool-cases, inl, inr,
}
use pcut.Item.{Kind, skip, Addr, Ptr, Store, is_skip, is_test}
use pcut.Items.{advance, get_real_next, count_loop, count_tests}

-- From `p` the `next` pointers lead through `xs` to NULL.
abbrev pub Chain : Store → Ptr → List Addr → Type 0
Chain h p [] = p ≡ none
Chain h p (a ∷ xs) = (p ≡ some a) × Chain h (h a).next xs

-- The first real item, and all of them.
abbrev pub first_real : Store → List Addr → Ptr
first_real h [] = none
first_real h (a ∷ xs) = if is_skip (h a).kind then first_real h xs else some a

abbrev pub reals : Store → List Addr → List Addr
reals h [] = []
reals h (a ∷ xs) = if is_skip (h a).kind then reals h xs else a ∷ reals h xs

-- how many items of the list are tests
abbrev pub tests_among : Store → List Addr → ℕ
tests_among h [] = 0
tests_among h (a ∷ xs) = (if is_test (h a).kind then 1 else 0) + tests_among h xs

pub advance-first_real :
    (n : ℕ) (h : Store) (p : Ptr) (xs : List Addr)
    → Chain h p xs
    → length xs ≤ n
    → advance n h p ≡ done (first_real h xs)
unfolding advance
advance-first_real n h p [] c l = rw c refl
advance-first_real zero h p (a ∷ xs) c l = absurd (omega arith)
advance-first_real (suc n) h p (a ∷ xs) c l =
    rw (c.0) (ground (arith, advance-first_real n h (h a).next xs c.1))

-- The entry of each walk: the first real item of the chain that begins at `a`.
pub get_real_next-first_real :
    (w : ℕ) (h : Store) (a : Addr) (xs : List Addr)
    → Chain h (h a).next xs
    → length xs ≤ w
    → get_real_next w h (some a) ≡ done (first_real h xs)
unfolding get_real_next
get_real_next-first_real w h a xs c l = advance-first_real w h (h a).next xs c l

skip-not_test : (k : Kind) → is_skip k ≡ true → is_test k ≡ false
skip-not_test skip e = refl
skip-not_test _ e = cc

count_loop-tests_among :
    (w n : ℕ) (h : Store) (p : Ptr) (xs : List Addr) (k : ℕ)
    → Chain h p xs
    → length xs ≤ n
    → length xs ≤ w
    → count_loop w n h (first_real h xs) k ≡ done (k + tests_among h xs)
unfolding count_loop
count_loop-tests_among w n h p [] k c l m = ap done (omega arith)
count_loop-tests_among w zero h p (a ∷ xs) k c l m = absurd (omega arith)
count_loop-tests_among w (suc n) h p (a ∷ xs) k c l m = elim (Bool-cases (is_skip (h a).kind)) [
  | inl s ↦
      rw (s, skip-not_test (h a).kind s)
        (count_loop-tests_among w (suc n) h (h a).next xs k c.1 (omega arith) (omega arith)
          ∙ ap done (omega arith))
  | inr r ↦
      rw (r, get_real_next-first_real w h a xs c.1 (omega arith))
        (count_loop-tests_among w n h (h a).next xs _ c.1 (omega arith) (omega arith)
          ∙ ground arith)
]

-- `pcut_count_tests` ends and counts the tests of the list, with any fuel that covers its length.
pub count_tests-tests_among :
    (w : ℕ) (h : Store) (p : Ptr) (xs : List Addr)
    → Chain h p xs
    → length xs ≤ w
    → count_tests w h p ≡ done (tests_among h xs)
unfolding count_tests count_loop
count_tests-tests_among w h p [] c l = rw c refl
count_tests-tests_among zero h p (a ∷ xs) c l = absurd (omega arith)
count_tests-tests_among (suc w) h p (a ∷ xs) c l =
    rw (c.0, get_real_next-first_real (suc w) h a xs c.1 (omega arith))
      (count_loop-tests_among (suc w) w h (h a).next xs _ c.1 (omega arith) (omega arith)
        ∙ ground arith)

-- Writes that spare the links keep a chain.
pub Chain-same :
    (g h : Store) (p : Ptr) (xs : List Addr)
    → ((x : Addr) → (g x).next ≡ (h x).next)
    → Chain h p xs
    → Chain g p xs
Chain-same g h p [] e c = c
Chain-same g h p (a ∷ xs) e c = (c.0, rw (e a) (Chain-same g h (h a).next xs e c.1))

-- Writes that spare the kinds keep the real items.
pub reals-same :
    (g h : Store) (xs : List Addr)
    → ((x : Addr) → (g x).kind ≡ (h x).kind)
    → reals g xs ≡ reals h xs
reals-same g h [] e = refl
reals-same g h (a ∷ xs) e = rw (e a, reals-same g h xs e)
