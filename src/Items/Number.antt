-- ===== src/Items/Number.antt =====
-- `set_ids`: the numbers that the real items get.
use pcut.Common.{
  ℕ, zero, suc, ◌+◌, ◌≤◌, ◌≡◌, refl, ap, ◌∙◌, false, List, [], ◌∷◌, arith, if◌then◌else◌, done,
  some, length, has, AllDistinct, Bool-cases, inl, inr, pos, ℤ,
}
use pcut.Item.{Addr, Ptr, Item, Store, write, is_skip}
use pcut.Items.{set_ids_loop, set_ids}
use pcut.Items.Walk.{Chain, first_real, get_real_next-first_real, Chain-same, reals, reals-same}

-- The store after the loop that begins with id `k`.
pub number : Store → ℕ → List Addr → Store
number h k [] = h
number h k (a ∷ xs) =
    let real = is_skip (h a).kind in
    number (if real then h else write h a (record (h a) { id = pos k })) (if real then k else k + 1)
      xs

write_id-next :
    (h : Store) (a : Addr) (i : ℤ) (x : Addr)
    → (write h a (record (h a) { id = i }) x).next ≡ (h x).next
write_id-next h a i x = ground arith

set_ids_loop-number :
    (w n : ℕ) (h : Store) (p : Ptr) (xs : List Addr) (k : ℕ)
    → Chain h p xs
    → length xs ≤ n
    → length xs ≤ w
    → set_ids_loop w n h (first_real h xs) k ≡ done (number h k xs)
unfolding set_ids_loop number
set_ids_loop-number w n h p [] k c l m = refl
set_ids_loop-number w zero h p (a ∷ xs) k c l m = absurd (omega arith)
set_ids_loop-number w (suc n) h p (a ∷ xs) k c l m = elim (Bool-cases (is_skip (h a).kind)) [
  | inl s ↦ rw s (set_ids_loop-number w (suc n) h (h a).next xs k c.1 (omega arith) (omega arith))
  | inr r ↦
      let h' : Store = write h a (record (h a) { id = pos k }) in
      let e : (h' a).next ≡ (h a).next = write_id-next h a (pos k) a in
      let c' : Chain h' (h a).next xs =
        Chain-same h' h (h a).next xs (write_id-next h a (pos k)) c.1 in
      rw (r, get_real_next-first_real w h' a xs (rw e c') (omega arith))
        (set_ids_loop-number w n h' (h a).next xs (k + 1) c' (omega arith) (omega arith))
]

-- `set_ids` numbers the real items of the chain of `a`.
pub set_ids-number :
    (w : ℕ) (h : Store) (a : Addr) (xs : List Addr)
    → Chain h (h a).next xs
    → suc (length xs) ≤ w
    → set_ids w h a ≡ done (number h 1 (a ∷ xs))
unfolding set_ids
set_ids-number w h a xs c l = elim (Bool-cases (is_skip (h a).kind)) [
  | inl s ↦
      rw (s, get_real_next-first_real w h a xs c (omega arith))
        (rw s at (set_ids_loop-number w w h (some a) (a ∷ xs) 1 (refl, c) l l))
  | inr r ↦ rw r (rw r at (set_ids_loop-number w w h (some a) (a ∷ xs) 1 (refl, c) l l))
]

-- one step of `number`
abbrev mark_id : Store → Addr → ℕ → Store
mark_id h a k = if is_skip (h a).kind then h else write h a (record (h a) { id = pos k })

mark_id_at :
    (h : Store) (a x : Addr) (k : ℕ) (z : ℤ)
    → record (mark_id h a k x) { id = z } ≡ record (h x) { id = z }
mark_id_at h a x k z = ground arith

-- Nothing but ids changes.
pub number-same :
    (h : Store) (k : ℕ) (xs : List Addr) (x : Addr)
    → number h k xs x ≡ record (h x) { id = (number h k xs x).id }
unfolding number
number-same h k [] x = refl
number-same h k (a ∷ xs) x = number-same (mark_id h a k) _ xs x ∙ mark_id_at h a x k _

-- Nothing outside the list changes.
pub number-outside :
    (h : Store) (k : ℕ) (xs : List Addr) (x : Addr) → has x xs ≡ false → number h k xs x ≡ h x
unfolding number
number-outside h k [] x o = refl
number-outside h k (a ∷ xs) x o =
    number-outside (mark_id h a k) _ xs x (ground arith) ∙ ground arith

-- The ids of the listed items are `k`, `k + 1` and so on.
abbrev pub CountsFrom : Store → ℕ → List Addr → Type 0
CountsFrom g k [] = Unit {0}
CountsFrom g k (a ∷ xs) = ((g a).id ≡ pos k) × CountsFrom g (k + 1) xs

pub number-CountsFrom :
    (h : Store) (k : ℕ) (xs : List Addr)
    → AllDistinct xs
    → CountsFrom (number h k xs) k (reals h xs)
unfolding number
number-CountsFrom h k [] d = tt
number-CountsFrom h k (a ∷ xs) d = elim (Bool-cases (is_skip (h a).kind)) [
  | inl s ↦ rw s (number-CountsFrom h k xs d.1)
  | inr r ↦
      let h' : Store = write h a (record (h a) { id = pos k }) in
      rw r (
        ap (λ (i : Item). i.id) (number-outside h' (k + 1) xs a d.0) ∙ ground arith,
        rw (reals-same h h' xs (λ x. ground arith)) (number-CountsFrom h' (k + 1) xs d.1),
      )
]

-- `set_ids` ends, with fuel for the length of the chain, whose items stand at different addresses;
-- the real items of the list then have the ids 1, 2, 3 and so on, and nothing but ids changes.
pub set_ids-CountsFrom :
    (w : ℕ) (h : Store) (a : Addr) (xs : List Addr)
    → Chain h (h a).next xs
    → AllDistinct (a ∷ xs)
    → suc (length xs) ≤ w
    → (g : Store) × (set_ids w h a ≡ done g)
      × CountsFrom g 1 (reals g (a ∷ xs))
      × ((x : Addr) → g x ≡ record (h x) { id = (g x).id })
set_ids-CountsFrom w h a xs c d l =
    let g = number h 1 (a ∷ xs) in
    let same = number-same h 1 (a ∷ xs) in
    let reals_same = reals-same g h (a ∷ xs) (λ x. ap (λ (j : Item). j.kind) (same x)) in
    (g, set_ids-number w h a xs c l, rw reals_same (number-CountsFrom h 1 (a ∷ xs) d), same)
