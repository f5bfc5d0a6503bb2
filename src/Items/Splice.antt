-- ===== src/Items/Splice.antt =====
-- `inline_nested_lists` on an item of PCUT_IMPORT.
use pcut.Common.{
  ◌≡◌, refl, ap, ◌∙◌, fun_ext, true, false, none, some, List, [], ◌∷◌, ◌++◌, append_assoc,
  append-nil, arith, ◌==◌, has, has-append, AllDistinct, distinct-apart, distinct-left,
  distinct-right, if◌then◌else◌, Bool-cases, inl, inr,
}
use pcut.Item.{Addr, Ptr, Item, Store, is_nested}
use pcut.Items.{splice, hide, set_next}
use pcut.Items.Walk.{Chain}
use pcut.Items.Links.{Back, Chain-cong, Back-cong, Chain-append, Back-append}
use pcut.Items.Linked.{linked_kind, Settled, Settled-relink, Linked}
use pcut.Items.Writes.{spliced, set_next-apply, splice-spliced, has_ne, points_to-has, Back-first}

module _ (h m : Store) (a z first : Addr) (q : Ptr) (xs ys t : List Addr)
    (head : xs ++ z ∷ [] ≡ first ∷ t) (d : AllDistinct (a ∷ ((xs ++ z ∷ []) ++ ys)))
    (link : Linked (set_next h a q) m (xs ++ z ∷ []) [] none first)
    (is_import : is_nested (h a).kind ≡ true) (ch : Chain h q ys) (bk : Back h (some a) ys) where
  abbrev new : Store
  new = spliced m q a z first

  a_out : has a (xs ++ z ∷ []) ≡ false
  a_out = ground (arith, d.0, has-append a (xs ++ z ∷ []) ys)

  a_out_ys : has a ys ≡ false
  a_out_ys = ground (arith, d.0, has-append a (xs ++ z ∷ []) ys)

  z_in : has z (xs ++ z ∷ []) ≡ true
  z_in = ground (arith, has-append z xs (z ∷ []))

  first_in : has first (xs ++ z ∷ []) ≡ true
  first_in = rw head (ground arith)

  apart : (x : Addr) → has x ys ≡ true → has x (xs ++ z ∷ []) ≡ false
  apart x i = elim (Bool-cases (has x (xs ++ z ∷ []))) [
    | inl e ↦ absurd (ground (arith, distinct-apart (xs ++ z ∷ []) ys x d.1 e))
    | inr e ↦ e
  ]

  F_distinct : AllDistinct (xs ++ z ∷ [])
  F_distinct = distinct-left (xs ++ z ∷ []) ys d.1

  z_out_ys : has z ys ≡ false
  z_out_ys = distinct-apart (xs ++ z ∷ []) ys z d.1 z_in

  first_out_ys : has first ys ≡ false
  first_out_ys = distinct-apart (xs ++ z ∷ []) ys first d.1 first_in

  z_out_xs : has z xs ≡ false
  z_out_xs = elim (Bool-cases (has z xs)) [
    | inl e ↦ absurd (ground (arith, distinct-apart xs (z ∷ []) z F_distinct e))
    | inr e ↦ e
  ]

  -- Outside the imported file the recursive call changed nothing.
  kept : (x : Addr) → has x (xs ++ z ∷ []) ≡ false → m x ≡ set_next h a q x
  kept x o = link.outside x o refl

  kept_ys : (x : Addr) → has x ys ≡ true → m x ≡ h x
  kept_ys x i = kept x (apart x i) ∙ set_next-apply h a q x ∙ rw (has_ne x a ys i a_out_ys) refl

  new_next_xs : (x : Addr) → has x xs ≡ true → (new x).next ≡ (m x).next
  new_next_xs x i =
      rw (has_ne x a (xs ++ z ∷ []) (ground (arith, has-append x xs (z ∷ []))) a_out)
        (rw (has_ne x z xs i z_out_xs) refl)

  new_next_z : (new z).next ≡ q
  new_next_z = rw (has_ne z a (xs ++ z ∷ []) z_in a_out) (ground arith)

  new_next_ys : (x : Addr) → has x ys ≡ true → (new x).next ≡ (h x).next
  new_next_ys x i =
      rw (has_ne x a ys i a_out_ys, has_ne x z ys i z_out_ys)
        (ap (λ (j : Item). j.next) (kept_ys x i))

  m_next_a : (m a).next ≡ q
  m_next_a = ap (λ (j : Item). j.next) (kept a a_out ∙ set_next-apply h a q a) ∙ ground arith

  new-Chain : Chain new (some a) ((a ∷ (xs ++ z ∷ [])) ++ ys)
  new-Chain =
      let whole = rw append-nil at link.chain in
      let ends = Chain-cong new h q ys new_next_ys ch in
      (
        refl,
        rw (append_assoc xs (z ∷ []) ys, new_next_a)
            (Chain-append new m (some first) q xs z ys new_next_xs new_next_z ends whole),
      )
    where
      new_next_a : (new a).next ≡ some first
      new_next_a = ground arith

  -- the store in which only the head of the imported file is linked back
  abbrev headed : Store
  headed x = record (m x) { previous = if x == first then some a else (m x).previous }

  headed-Back : Back headed (some a) (xs ++ z ∷ [])
  headed-Back =
      let b = rw append-nil at link.back in
      let b' = rw head at b in
      let d' = rw head at F_distinct in
      rw head (
        ground arith,
        Back-cong headed m (some first) t (λ x i. rw (has_ne x first t i d'.0) refl) b'.1,
      )

  new_previous_xs :
      (x : Addr) → has x (xs ++ z ∷ []) ≡ true → (new x).previous ≡ (headed x).previous
  new_previous_xs x i =
      rw (points_to-has h q ys x ch (distinct-apart (xs ++ z ∷ []) ys x d.1 i)) refl

  new-Back_ys : Back new (some z) ys
  new-Back_ys =
      Back-first new h (some a) q z ys (λ x i e. rw (has_ne x first ys i first_out_ys, e) refl)
        (λ x i e.
          rw (has_ne x first ys i first_out_ys, e) (ap (λ (j : Item). j.previous) (kept_ys x i)))
        ch (distinct-right (xs ++ z ∷ []) ys d.1) bk

  new_previous_a : (new a).previous ≡ (h a).previous
  new_previous_a = rw first_ne (
      rw (points_to-has h q ys a ch a_out_ys)
        (ap (λ (j : Item). j.previous) (kept a a_out ∙ set_next-apply h a q a)))
    where
      first_ne : (a == first) ≡ false
      first_ne = ground (arith, has_ne first a (xs ++ z ∷ []) first_in a_out)

  new-Back : Back new (h a).previous ((a ∷ (xs ++ z ∷ [])) ++ ys)
  new-Back = (
    new_previous_a,
    rw (append_assoc xs (z ∷ []) ys)
        (Back-append new headed (some a) xs z ys new_previous_xs new-Back_ys headed-Back),
  )

  Settled-a : Settled (new a) (h a)
  unfolding linked_kind hide
  Settled-a = ground (arith, kept a a_out ∙ set_next-apply h a q a)

  new-Settled : (x : Addr) → has x (a ∷ (xs ++ z ∷ [])) ≡ true → Settled (new x) (h x)
  new-Settled x i = elim (Bool-cases (x == a)) [
    | inl e ↦ let p : x ≡ a = ground arith in rw p Settled-a
    | inr e ↦
        let in_file : has x (xs ++ z ∷ []) ≡ true = ground arith in
        let same : set_next h a q x ≡ h x = set_next-apply h a q x ∙ rw e refl in
        Settled-relink (new x) (m x) (h x) (rw e refl) (rw same at (link.settled x in_file))
  ]

  new_rest :
      (x : Addr)
      → has x (a ∷ (xs ++ z ∷ [])) ≡ false
      → new x ≡ record (h x) { previous = (new x).previous }
  new_rest x o =
      let same : m x ≡ h x = kept x (ground arith) ∙ set_next-apply h a q x ∙ ground arith in
      ground (arith, has_ne z x (xs ++ z ∷ []) z_in)

  new_outside : (x : Addr) → has x (a ∷ (xs ++ z ∷ [])) ≡ false → has x ys ≡ false → new x ≡ h x
  new_outside x o u =
      let same : m x ≡ h x = kept x (ground arith) ∙ set_next-apply h a q x ∙ ground arith in
      ground (
        arith,
        has_ne z x (xs ++ z ∷ []) z_in,
        has_ne first x (xs ++ z ∷ []) first_in,
        points_to-has h q ys x ch u,
      )

  new-Linked : Linked h new (a ∷ (xs ++ z ∷ [])) ys (h a).previous a
  new-Linked = record {
    chain = new-Chain;
    back = new-Back;
    settled = new-Settled;
    rest = new_rest;
    outside = new_outside;
  }

  -- The writes of `inline_nested_lists` put the imported file behind its import.
  pub splice-Linked : Linked h (splice m a z first) (a ∷ (xs ++ z ∷ [])) ys (h a).previous a
  splice-Linked = rw (fun_ext (λ x. splice-spliced m q a z first x m_next_a a_ne_z)) new-Linked
    where
      a_ne_z : (a == z) ≡ false
      a_ne_z = ground (arith, has_ne z a (xs ++ z ∷ []) z_in a_out)
