-- ===== src/Items/Linked.antt =====
-- What linking a part of the list leaves behind, and how two parts join.
use pcut.Common.{
  ◌≡◌, refl, ap, ◌∙◌, Bool, true, false, some, List, ◌++◌, append_assoc, arith, has, has-append,
  AllDistinct, distinct-apart, distinct-left, if◌then◌else◌, Bool-cases, inl, inr,
}
use pcut.Item.{Kind, skip, Addr, Ptr, Item, Store, is_nested}
use pcut.Items.{hide}
use pcut.Items.Marks.{is_marked, hide-is_marked}
use pcut.Items.Walk.{Chain}
use pcut.Items.Links.{Back}

-- The kind of an item in the finished list: imports and marked tests are hidden.
unfoldable pub shown : Item → Kind
shown it = if is_nested it.kind then skip else if is_marked it then skip else it.kind

-- By the way to it.
unfoldable pub linked_kind : Item → Kind
unfolding hide
linked_kind it = if is_nested it.kind then skip else (hide it).kind

pub linked_kind-shown : (it : Item) → linked_kind it ≡ shown it
unfolding linked_kind shown
linked_kind-shown it =
    ap (λ (i : Item). if is_nested it.kind then skip else i.kind) (hide-is_marked it)
    ∙ ap (λ k. if is_nested it.kind then skip else k) (branch (is_marked it))
  where
    branch :
        (b : Bool)
        → (if b then record it { kind = skip } else it).kind ≡ (if b then skip else it.kind)
    branch true = refl
    branch false = refl

-- Item `g` is what becomes of `h`, up to its id and its links, and once it is hidden.
pub record Settled (g h : Item) : Type 0 where
  pub kind : (hide g).kind ≡ linked_kind h
  pub name : g.name ≡ h.name
  pub test_func : g.test_func ≡ h.test_func
  pub setup_func : g.setup_func ≡ h.setup_func
  pub teardown_func : g.teardown_func ≡ h.teardown_func
  pub extras : g.extras ≡ h.extras
  pub main_extras : g.main_extras ≡ h.main_extras
  pub nested : g.nested ≡ h.nested

-- The links and the id of an item do not count.
pub Settled-relink :
    (f g h : Item)
    → f ≡ record g { previous = f.previous; next = f.next; id = f.id }
    → Settled g h
    → Settled f h
unfolding hide
Settled-relink f g h e s = ground (arith, s.kind)

-- From store `h` to `g` the items `xs` were linked in front of the chain `ys`: the list begins
-- with `first`, and its `previous` pointers end in `p`.
pub record Linked (h g : Store) (xs ys : List Addr) (p : Ptr) (first : Addr) : Type 0 where
  pub chain : Chain g (some first) (xs ++ ys)
  pub back : Back g p (xs ++ ys)
  pub settled : (x : Addr) → has x xs ≡ true → Settled (g x) (h x)
  pub rest : (x : Addr) → has x xs ≡ false → g x ≡ record (h x) { previous = (g x).previous }
  pub outside : (x : Addr) → has x xs ≡ false → has x ys ≡ false → g x ≡ h x

Linked-Settled :
    (h m g : Store) (xs es ys : List Addr) (p q : Ptr) (n first : Addr) (x : Addr)
    → AllDistinct (xs ++ es ++ ys)
    → Linked h m es ys q n
    → Linked m g xs (es ++ ys) p first
    → has x (xs ++ es) ≡ true
    → Settled (g x) (h x)
Linked-Settled h m' g xs es ys p q n first x d l k i = elim (Bool-cases (has x xs)) [
  | inl m ↦ let e : m' x ≡ h x = l.outside x (apart_es m) (apart_ys m) in rw e at (k.settled x m)
  | inr m ↦
      let j : has x es ≡ true = ground (arith, has-append x xs es) in
      Settled-relink (g x) (m' x) (h x) (ground (arith, k.rest x m)) (l.settled x j)
]
  where
    apart_ys : has x xs ≡ true → has x ys ≡ false
    apart_ys m = distinct-apart (xs ++ es) ys x d (ground (arith, has-append x xs es))

    apart_es : has x xs ≡ true → has x es ≡ false
    apart_es m = distinct-apart xs es x (distinct-left (xs ++ es) ys d) m

-- First `es`, then `xs` in front of it.
pub Linked-trans :
    (h m g : Store) (xs es ys : List Addr) (p q : Ptr) (n first : Addr)
    → AllDistinct (xs ++ es ++ ys)
    → Linked h m es ys q n
    → Linked m g xs (es ++ ys) p first
    → Linked h g (xs ++ es) ys p first
Linked-trans h m g xs es ys p q n first d l k = record {
  chain = rw (append_assoc xs es ys) k.chain;
  back = rw (append_assoc xs es ys) k.back;
  settled = λ x i. Linked-Settled h m g xs es ys p q n first x d l k i;
  rest = λ x i. ground (arith, has-append x xs es, k.rest x, l.rest x);
  outside =
      λ x i j. ground (arith, has-append x xs es, has-append x es ys, k.outside x, l.outside x);
}
