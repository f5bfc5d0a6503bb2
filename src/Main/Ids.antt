-- ===== src/Main/Ids.antt =====
-- src/main.c: `pcut_find_by_id` on a list that `set_ids` numbered.
use pcut.Common.{
  ℕ, zero, suc, ◌+◌, ◌≤◌, ◌≡◌, refl, false, none, some, List, [], ◌∷◌, arith, pos, done, length,
  Bool-cases, inl, inr, ◌==◌,
}
use pcut.Item.{Addr, Ptr, Store, is_skip}
use pcut.Items.Walk.{Chain, first_real, reals, get_real_next-first_real}
use pcut.Items.Number.{CountsFrom}
use pcut.Main.Find.{find_loop, find_by_id}

-- The item at a position, if there is one.
abbrev pub item_at : List Addr → ℕ → Ptr
item_at [] i = none
item_at (a ∷ xs) zero = some a
item_at (a ∷ xs) (suc i) = item_at xs i

find_loop-item_at :
    (w n : ℕ) (h : Store) (p : Ptr) (xs : List Addr) (k i : ℕ)
    → Chain h p xs
    → CountsFrom h k (reals h xs)
    → length xs ≤ n
    → length xs ≤ w
    → find_loop w n h (first_real h xs) (pos (k + i)) ≡ done (item_at (reals h xs) i)
unfolding find_loop
find_loop-item_at w n h p [] k i c d l m = refl
find_loop-item_at w zero h p (a ∷ xs) k i c d l m = absurd (omega arith)
find_loop-item_at w (suc n) h p (a ∷ xs) k zero c d l m = elim (Bool-cases (is_skip (h a).kind)) [
  | inl s ↦ rw s (
      find_loop-item_at w (suc n) h (h a).next xs k zero c.1 (rw s at d) (omega arith)
        (omega arith))
  | inr r ↦
      let d' : ((h a).id ≡ pos k) × CountsFrom h (k + 1) (reals h xs) = rw r at d in
      rw (r, d'.0) (ground arith)
]
find_loop-item_at w (suc n) h p (a ∷ xs) k (suc i) c d l m =
    elim (Bool-cases (is_skip (h a).kind)) [
      | inl s ↦ rw s (
          find_loop-item_at w (suc n) h (h a).next xs k (suc i) c.1 (rw s at d) (omega arith)
            (omega arith))
      | inr r ↦
          let d' : ((h a).id ≡ pos k) × CountsFrom h (k + 1) (reals h xs) = rw r at d in
          let rest =
            find_loop-item_at w n h (h a).next xs (k + 1) i c.1 d'.1 (omega arith) (omega arith) in
          let e : k + suc i ≡ k + 1 + i = omega arith in
          let differs : k == (k + 1 + i) ≡ false = ground arith in
          rw (r, d'.0, get_real_next-first_real w h a xs c.1 (omega arith), e, differs) rest
    ]

-- In a list whose real items have the ids 1, 2, 3 and so on, `pcut_find_by_id` finds for the id i
-- + 1 the real item at position i, and NULL when there are not so many, with fuel for the length
-- of the list.
pub find_by_id-item_at :
    (w : ℕ) (h : Store) (a : Addr) (xs : List Addr) (i : ℕ)
    → Chain h (h a).next xs
    → CountsFrom h 1 (reals h (a ∷ xs))
    → suc (length xs) ≤ w
    → find_by_id w h (some a) (pos (suc i)) ≡ done (item_at (reals h (a ∷ xs)) i)
unfolding find_by_id
find_by_id-item_at w h a xs i c d l =
    let e : suc i ≡ 1 + i = omega arith in
    let found = find_loop-item_at w w h (some a) (a ∷ xs) 1 i (refl, c) d l l in
    elim (Bool-cases (is_skip (h a).kind)) [
      | inl s ↦ rw (s, get_real_next-first_real w h a xs c (omega arith), e) (rw s at found)
      | inr r ↦ rw (r, e) (rw r at found)
    ]
