-- ===== src/Items/Writes.antt =====
-- The single writes of src/list.c to `next`, `previous` and `kind`, and those of `inline_nested_lists`.
use pcut.Common.{
  ◌≡◌, refl, Bool, true, false, none, some, List, [], ◌∷◌, arith, ◌==◌, has, AllDistinct,
  if◌then◌else◌, Bool-cases, inl, inr,
}
use pcut.Item.{Kind, skip, Addr, Ptr, Store}
use pcut.Items.{splice, set_next, set_previous, set_kind, set_next_previous}
use pcut.Items.Walk.{Chain}
use pcut.Items.Links.{Back, Back-cong}

abbrev pub points_to : Ptr → Addr → Bool
points_to none x = false
points_to (some n) x = x == n

-- The store behind `splice`, item by item.
abbrev pub spliced : Store → Ptr → Addr → Addr → Addr → Store
spliced m q a z first x = record (m x) {
  next = if x == a then some first else if x == z then q else (m x).next;
  previous = if x == first then some a else if points_to q x then some z else (m x).previous;
  kind = if x == a then skip else (m x).kind;
}

pub set_next-apply :
    (h : Store) (a : Addr) (p : Ptr) (x : Addr)
    → set_next h a p x ≡ record (h x) { next = if x == a then p else (h x).next }
unfolding set_next
set_next-apply h a p x = ground arith

set_previous-apply :
    (h : Store) (a : Addr) (p : Ptr) (x : Addr)
    → set_previous h a p x ≡ record (h x) { previous = if x == a then p else (h x).previous }
unfolding set_previous
set_previous-apply h a p x = ground arith

pub set_kind-apply :
    (h : Store) (a : Addr) (k : Kind) (x : Addr)
    → set_kind h a k x ≡ record (h x) { kind = if x == a then k else (h x).kind }
unfolding set_kind
set_kind-apply h a k x = ground arith

set_next_previous-apply :
    (h : Store) (q p : Ptr) (x : Addr)
    → set_next_previous h q p x
      ≡ record (h x) { previous = if points_to q x then p else (h x).previous }
unfolding set_next_previous
set_next_previous-apply h none p x = refl
set_next_previous-apply h (some n) p x = set_previous-apply h n p x

ruleset writes = (set_next-apply, set_previous-apply, set_kind-apply, set_next_previous-apply)

pub splice-spliced :
    (m : Store) (q : Ptr) (a z first x : Addr)
    → (m a).next ≡ q
    → (a == z) ≡ false
    → splice m a z first x ≡ spliced m q a z first x
unfolding splice
splice-spliced m q a z first x e d = simp (writes, d, e)

pub has_ne : (x y : Addr) (ws : List Addr) → has x ws ≡ true → has y ws ≡ false → (x == y) ≡ false
has_ne x y ws i o = elim (Bool-cases (x == y)) [
  | inl e ↦ let p : x ≡ y = ground arith in absurd (ground (arith, rw p at i))
  | inr e ↦ e
]

pub points_to-has :
    (h : Store) (q : Ptr) (ys : List Addr) (x : Addr)
    → Chain h q ys
    → has x ys ≡ false
    → points_to q x ≡ false
points_to-has h q [] x c o = rw c refl
points_to-has h q (y ∷ ys) x c o = rw (c.0) (ground arith)

-- A chain whose first item alone is linked back to `z`.
pub Back-first :
    (g h : Store) (p q : Ptr) (z : Addr) (ys : List Addr)
    → ((x : Addr) → has x ys ≡ true → points_to q x ≡ true → (g x).previous ≡ some z)
    → ((x : Addr) → has x ys ≡ true → points_to q x ≡ false → (g x).previous ≡ (h x).previous)
    → Chain h q ys
    → AllDistinct ys
    → Back h p ys
    → Back g (some z) ys
Back-first g h p q z [] e f c d b = tt
Back-first g h p q z (n ∷ u) e f c d b = (
  e n (ground arith) (rw (c.0) (ground arith)),
  Back-cong g h (some n) u (λ x i. f x (ground arith) (rw (c.0) (has_ne x n u i d.0))) b.1,
)
