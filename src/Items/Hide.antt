-- ===== src/Items/Hide.antt =====
-- `detect_skipped_tests`: which items it hides.
use pcut.Common.{
  ℕ, zero, suc, ◌≤◌, ◌≡◌, refl, ap, ◌∙◌, Bool, true, false, ◌&&◌, List, [], ◌∷◌, arith, ◌==◌,
  if◌then◌else◌, done, some, length, has, AllDistinct, Bool-cases, inl, inr,
}
use pcut.Item.{Addr, Ptr, Item, Store, write, is_skip, skip}
use pcut.Items.{hide, detect_loop, detect_skipped_tests}
use pcut.Items.Marks.{is_marked, hide-is_marked}
use pcut.Items.Walk.{Chain, first_real, get_real_next-first_real, Chain-same}

-- The store after the loop, item by item.
pub hidden : Store → List Addr → Store
hidden h [] = h
hidden h (a ∷ xs) = hidden (if is_skip (h a).kind then h else write h a (hide (h a))) xs

write-next : (h : Store) (a x : Addr) → (write h a (hide (h a)) x).next ≡ (h x).next
unfolding hide
write-next h a x = ground arith

detect_loop-hidden :
    (w n : ℕ) (h : Store) (p : Ptr) (xs : List Addr)
    → Chain h p xs
    → length xs ≤ n
    → length xs ≤ w
    → detect_loop w n h (first_real h xs) ≡ done (hidden h xs)
unfolding detect_loop hidden
detect_loop-hidden w n h p [] c l m = refl
detect_loop-hidden w zero h p (a ∷ xs) c l m = absurd (omega arith)
detect_loop-hidden w (suc n) h p (a ∷ xs) c l m = elim (Bool-cases (is_skip (h a).kind)) [
  | inl s ↦ rw s (detect_loop-hidden w (suc n) h (h a).next xs c.1 (omega arith) (omega arith))
  | inr r ↦
      let h' : Store = write h a (hide (h a)) in
      let e : (h' a).next ≡ (h a).next = write-next h a a in
      let c' : Chain h' (h a).next xs = Chain-same h' h (h a).next xs (write-next h a) c.1 in
      rw (r, get_real_next-first_real w h' a xs (rw e c') (omega arith))
        (detect_loop-hidden w n h' (h a).next xs c' (omega arith) (omega arith))
]

hide_skip : (it : Item) → is_skip it.kind ≡ true → hide it ≡ it
unfolding hide
hide_skip it s = ground arith

hide_at :
    (h : Store) (a x : Addr)
    → (if is_skip (h a).kind then h else write h a (hide (h a))) x
      ≡ (if x == a then hide (h x) else h x)
hide_at h a x = ground (arith, hide_skip (h a))

-- Each item of the list is hidden as its marks say, and no other is touched.
pub hidden-apply :
    (h : Store) (xs : List Addr) (x : Addr)
    → AllDistinct xs
    → hidden h xs x ≡ (if has x xs then hide (h x) else h x)
unfolding hidden
hidden-apply h [] x d = refl
hidden-apply h (a ∷ xs) x d =
    hidden-apply (if is_skip (h a).kind then h else write h a (hide (h a))) xs x d.1
    ∙ rw (hide_at h a x) (ground arith)

-- `detect_skipped_tests` runs to its end with fuel for the length of the chain.
pub detect_skipped_tests-hidden :
    (w : ℕ) (h : Store) (a : Addr) (xs : List Addr)
    → Chain h (h a).next xs
    → suc (length xs) ≤ w
    → detect_skipped_tests w h a ≡ done (hidden h (a ∷ xs))
unfolding detect_skipped_tests
detect_skipped_tests-hidden w h a xs c l = elim (Bool-cases (is_skip (h a).kind)) [
  | inl s ↦
      rw (s, get_real_next-first_real w h a xs c (omega arith))
        (rw s at (detect_loop-hidden w w h (some a) (a ∷ xs) (refl, c) l l))
  | inr r ↦ rw r (rw r at (detect_loop-hidden w w h (some a) (a ∷ xs) (refl, c) l l))
]

-- `detect_skipped_tests` ends, with fuel for the length of the chain, whose items stand at
-- different addresses; it hides the tests of the list that have PCUT_EXTRA_SKIP among the extras
-- before the first PCUT_EXTRA_LAST, and keeps all others.
pub detect_skipped_tests-is_marked :
    (w : ℕ) (h : Store) (a : Addr) (xs : List Addr)
    → Chain h (h a).next xs
    → AllDistinct (a ∷ xs)
    → suc (length xs) ≤ w
    → (g : Store) × (detect_skipped_tests w h a ≡ done g)
      × ((x : Addr)
          → g x ≡ (if has x (a ∷ xs) && is_marked (h x) then record (h x) { kind = skip } else h x))
detect_skipped_tests-is_marked w h a xs c d l = (
  hidden h (a ∷ xs),
  detect_skipped_tests-hidden w h a xs c l,
  λ x.
      hidden-apply h (a ∷ xs) x d
      ∙ ap (λ it. if has x (a ∷ xs) then it else h x) (hide-is_marked (h x))
      ∙ both (has x (a ∷ xs)) (is_marked (h x)) (record (h x) { kind = skip }) (h x),
)
  where
    both :
        (b c : Bool) (i j : Item)
        → (if b then if c then i else j else j) ≡ (if b && c then i else j)
    both true c i j = refl
    both false c i j = refl
