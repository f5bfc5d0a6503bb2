-- ===== src/Items/Flatten.antt =====
-- `pcut_fix_list_get_real_head` flattens a static item list, hides and numbers it.
use pcut.Common.{
  ℕ, zero, suc, ◌≤◌, ◌<◌, ◌≡◌, refl, ap, ◌∙◌, Bool, true, false, none, some, List, [], ◌∷◌,
  append-nil, arith, has, AllDistinct, if◌then◌else◌, done, length, length-append, distinct-apart,
}
use pcut.Item.{Addr, Ptr, Item, Store}
use pcut.Items.{
  hide, set_next, inline_nested_lists, link_loop, fix_list, detect_skipped_tests, set_ids,
}
use pcut.Items.Walk.{Chain, Chain-same, reals, reals-same}
use pcut.Items.Hide.{hidden, hidden-apply, detect_skipped_tests-hidden}
use pcut.Items.Number.{
  number, number-same, number-outside, CountsFrom, number-CountsFrom, set_ids-number,
}
use pcut.Items.Links.{Back, Back-cong, Chain-cong}
use pcut.Items.Linked.{
  shown, linked_kind, linked_kind-shown, Settled, Settled-relink, Linked, Linked-trans,
}
use pcut.Items.Linking.{Flattens, entry-Linked, link_loop-Linked}
use pcut.Items.Tree.{
  Entries, plain, last_ptr, first_addr, flats, file, depths, IsFile, IsEntry, flat, depth,
  static_cong, flats-head,
}

-- Store `g` holds the items `xs` of store `h` as one finished list.
pub record Flattened (h g : Store) (xs : List Addr) (first : Addr) : Type 0 where
  -- the forward and the backward links
  pub chain : Chain g (some first) xs
  pub back : Back g none xs
  -- imports and tests marked PCUT_TEST_SKIP are hidden, every other kind stays
  pub kinds : (x : Addr) → has x xs ≡ true → (g x).kind ≡ shown (h x)
  -- the content of each item stays
  pub settled : (x : Addr) → has x xs ≡ true → Settled (g x) (h x)
  -- the real items are numbered from 1 on
  pub ids : CountsFrom g 1 (reals g xs)
  -- no other item is touched
  pub outside : (x : Addr) → has x xs ≡ false → g x ≡ h x

hide-Settled : (g h : Item) → Settled g h → Settled (hide g) h
unfolding hide linked_kind
hide-Settled g h s = record {
  kind = ground (arith, s.kind);
  name = ground (arith, s.name);
  test_func = ground (arith, s.test_func);
  setup_func = ground (arith, s.setup_func);
  teardown_func = ground (arith, s.teardown_func);
  extras = ground (arith, s.extras);
  main_extras = ground (arith, s.main_extras);
  nested = ground (arith, s.nested);
}

hide-next : (i : Item) → (hide i).next ≡ i.next
unfolding hide
hide-next i = ground arith

hide-previous : (i : Item) → (hide i).previous ≡ i.previous
unfolding hide
hide-previous i = ground arith

relink_id :
    (f g : Item)
    → f ≡ record g { id = f.id }
    → f ≡ record g { previous = f.previous; next = f.next; id = f.id }
relink_id f g e = ground arith

module _ (h m : Store) (xs : List Addr) (first : Addr) (d : AllDistinct xs)
    (link : Linked h m xs [] none first) where
  -- the store behind `detect_skipped_tests` and `set_ids`
  abbrev final : Store
  final = number (hidden m xs) 1 xs

  final_in : (x : Addr) → has x xs ≡ true → final x ≡ record (hide (m x)) { id = (final x).id }
  final_in x i =
      let e : hidden m xs x ≡ hide (m x) = hidden-apply m xs x d ∙ rw i refl in
      rw e at (number-same (hidden m xs) 1 xs x)

  final_out : (x : Addr) → has x xs ≡ false → final x ≡ h x
  final_out x o =
      number-outside (hidden m xs) 1 xs x o ∙ hidden-apply m xs x d ∙ rw o (link.outside x o refl)

  final-Flattened : Flattened h final xs first
  final-Flattened = record {
    chain =
        Chain-cong final m (some first) xs
          (λ x i. ap (λ (j : Item). j.next) (final_in x i) ∙ hide-next (m x))
          (rw append-nil at link.chain);
    back =
        Back-cong final m none xs
          (λ x i. ap (λ (j : Item). j.previous) (final_in x i) ∙ hide-previous (m x))
          (rw append-nil at link.back);
    kinds = λ x i.
        ap (λ (j : Item). j.kind) (final_in x i)
        ∙ (link.settled x i).kind
        ∙ linked_kind-shown (h x);
    settled = λ x i.
        Settled-relink (final x) (hide (m x)) (h x)
          (relink_id (final x) (hide (m x)) (final_in x i))
          (hide-Settled (m x) (h x) (link.settled x i));
    ids =
        rw
          (reals-same final (hidden m xs) xs
            (λ x. ap (λ (j : Item). j.kind) (number-same (hidden m xs) 1 xs x)))
          (number-CountsFrom (hidden m xs) 1 xs d);
    outside = final_out;
  }

Flattened-Linked :
    (h g : Store) (xs : List Addr) (first : Addr)
    → Flattened h g xs first
    → Linked h g xs [] none first
Flattened-Linked h g xs first f = record {
  chain = rw append-nil f.chain;
  back = rw append-nil f.back;
  settled = f.settled;
  rest = λ x o. rw (f.outside x o);
  outside = λ x o u. f.outside x o;
}

-- The last two passes over the linked list.
marks-run :
    (w : ℕ) (m : Store) (xs t : List Addr) (first : Addr)
    → xs ≡ first ∷ t
    → AllDistinct xs
    → Chain m (some first) xs
    → length xs ≤ w
    → (detect_skipped_tests w m first ≡ done (hidden m xs))
      × (set_ids w (hidden m xs) first ≡ done (number (hidden m xs) 1 xs))
marks-run w m xs t first e d c l =
    let size : suc (length t) ≤ w = rw e at l in
    let c₁ : Chain m (m first).next t = (rw e at c).1 in
    let next_same : (x : Addr) → (hidden m xs x).next ≡ (m x).next =
      λ x. ap (λ (j : Item). j.next) (hidden-apply m xs x d) ∙ if-next (has x xs) (m x) in
    let c₂ : Chain (hidden m xs) (m first).next t =
      Chain-same (hidden m xs) m (m first).next t next_same c₁ in
    (
      detect_skipped_tests-hidden w m first t c₁ size ∙ rw (← e) refl,
      set_ids-number w (hidden m xs) first t (rw (next_same first) c₂) size ∙ rw (← e) refl,
    )
  where
    if-next : (b : Bool) (i : Item) → (if b then hide i else i).next ≡ i.next
    if-next true i = hide-next i
    if-next false i = refl

fix_round :
    (w d : ℕ) (h k m : Store) (last first : Addr) (p : Ptr) (xs : List Addr)
    → inline_nested_lists (fix_list w d) (set_next h last none) last ≡ done k
    → (k last).previous ≡ p
    → link_loop (fix_list w d) w k p last ≡ done (first, m)
    → detect_skipped_tests w m first ≡ done (hidden m xs)
    → set_ids w (hidden m xs) first ≡ done (number (hidden m xs) 1 xs)
    → fix_list w (suc d) h last ≡ done (first, number (hidden m xs) 1 xs)
unfolding fix_list
fix_round w d h k m last first p xs a b c e f = rw (a, b, c, e, f)

-- `pcut_fix_list_get_real_head` ends and returns the head of the list. The items of the file and
-- of the files that it imports, in the order of the source, then form one doubly linked list;
-- imports and tests marked to be skipped are hidden, the real items have the ids 1, 2, 3 and so
-- on, the content of each item is kept, and no other item is touched. The conditions are that the
-- items are laid out as the macros do it, that they stand at different addresses, and that the
-- fuel covers the nesting of the imports and the number of the items.
pub fix_list-Flattened :
    (w d : ℕ) (h : Store) (es : Entries) (z : Addr)
    → IsFile h es z
    → AllDistinct (file es z)
    → depths es < d
    → length (file es z) ≤ w
    → (g : Store) × (fix_list w d h z ≡ done (first_addr es z, g))
      × Flattened h g (file es z) (first_addr es z)
unfolding IsEntry flat depth
fix_list-Flattened w zero h es z f d l n = absurd (omega arith)
fix_list-Flattened w (suc e) h es z f d l n =
    let first = first_addr es z in
    let size = length-append (flats es) (z ∷ []) in
    let inner : Flattens (fix_list w e) w e = λ h' es' z' f' d' l' n'.
      let (g, runs, flat') = fix_list-Flattened w e h' es' z' f' d' l' n' in
      (g, runs, Flattened-Linked h' g (file es' z') (first_addr es' z') flat') in
    let (k, inlined, last) =
      entry-Linked (fix_list w e) w e inner h (plain z) none [] f.closes (refl, tt) refl tt
        (omega arith) (omega arith) in
    let out : (x : Addr) → has x (flats es) ≡ true → has x (z ∷ []) ≡ false =
      λ x i. distinct-apart (flats es) (z ∷ []) x d i in
    let (m, looped, front) =
      link_loop-Linked (fix_list w e) w e inner w k es z (z ∷ [])
        (static_cong k h es (λ x i. last.outside x (out x i) refl) f.entries) d last.chain
        (rw f.previous at last.back) (omega arith) (omega (arith, size)) (omega (arith, size)) in
    let whole =
      Linked-trans h k m (flats es) (z ∷ []) [] none (h z).previous z first (rw append-nil d) last
        front in
    let (t, head) = flats-head es z [] in
    let (hides, ids) = marks-run w m (file es z) t first head d (rw append-nil at whole.chain) n in
    (
      number (hidden m (file es z)) 1 (file es z),
      fix_round w e h k m z first (last_ptr es) (file es z) inlined (last.back.0 ∙ f.previous)
          looped hides ids,
      final-Flattened h m (file es z) first d whole,
    )
