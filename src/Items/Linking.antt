-- ===== src/Items/Linking.antt =====
-- One round of the loop of `pcut_fix_list_get_real_head`, and the loop.
use pcut.Common.{
  ℕ, zero, suc, ◌≤◌, ◌<◌, ◌≡◌, refl, ap, ◌∙◌, true, false, none, some, List, [], ◌∷◌, ◌++◌,
  append_assoc, arith, ◌==◌, has, AllDistinct, distinct-apart, distinct-left, distinct-right, Run,
  done, length, length-append, has_in_left, has_in_right, has-left, has-right,
}
use pcut.Item.{skip, Addr, Ptr, Item, Store, is_nested}
use pcut.Items.{set_next, set_kind, hide, splice, inline_nested_lists, link_loop}
use pcut.Items.Walk.{Chain}
use pcut.Items.Links.{Back, Chain-cong, Back-cong}
use pcut.Items.Linked.{linked_kind, Settled, Linked, Linked-trans}
use pcut.Items.Writes.{set_next-apply, set_kind-apply, has_ne}
use pcut.Items.Splice.{splice-Linked}
use pcut.Items.Tree.{
  Entries, nil, behind, Entry, plain, empty_import, imports, addr, last_ptr, first_addr, flats,
  flat, file, depths, depth, IsStatic, IsEntry, IsFile, static_cong, flats-head, flat-head,
  length-flat,
}

abbrev pub Fix : Type 0
Fix = Store → Addr → Run (Addr × Store)

-- `fix` flattens every file whose imports nest to `d` at most and that has at most `w` items.
abbrev pub Flattens : Fix → ℕ → ℕ → Type 0
Flattens fix w d =
    (h : Store) (es : Entries) (z : Addr)
    → IsFile h es z
    → AllDistinct (file es z)
    → depths es < d
    → length (file es z) ≤ w
    → (g : Store) × (fix h z ≡ done (first_addr es z, g))
      × Linked h g (file es z) [] none (first_addr es z)

single-Linked :
    (h g : Store) (a : Addr) (q : Ptr) (ys : List Addr)
    → ((x : Addr) → (x == a) ≡ false → g x ≡ h x)
    → (g a).next ≡ q
    → (g a).previous ≡ (h a).previous
    → Settled (g a) (h a)
    → AllDistinct (a ∷ ys)
    → Chain h q ys
    → Back h (some a) ys
    → Linked h g (a ∷ []) ys (h a).previous a
single-Linked h g a q ys e n p s d c b = record {
  chain = (refl, rw n (Chain-cong g h q ys (λ x i. ap (λ (j : Item). j.next) (far x i)) c));
  back = (p, Back-cong g h (some a) ys (λ x i. ap (λ (j : Item). j.previous) (far x i)) b);
  settled = λ x i. let same : x ≡ a = ground arith in rw same s;
  rest = λ x i. ground (arith, e x);
  outside = λ x i j. e x (ground arith);
}
  where
    far : (x : Addr) → has x ys ≡ true → g x ≡ h x
    far x i = e x (has_ne x a ys i d.0)

-- What an entry's round has to leave behind.
abbrev pub Round : Fix → Store → Entry → Ptr → List Addr → Type 0
Round fix h e q ys =
    (g : Store) × (inline_nested_lists fix (set_next h (addr e) q) (addr e) ≡ done g)
    × Linked h g (flat e) ys (h (addr e)).previous (addr e)

module _ (h : Store) (a : Addr) (q : Ptr) where
  set_next_self : set_next h a q a ≡ record (h a) { next = q }
  set_next_self = set_next-apply h a q a ∙ ground arith

  set_next-other : (x : Addr) → (x == a) ≡ false → set_next h a q x ≡ h x
  set_next-other x o = set_next-apply h a q x ∙ rw o refl

module _ (fix : Fix) (h : Store) (a : Addr) (q : Ptr) (ys : List Addr)
    (distinct : AllDistinct (a ∷ ys)) (c : Chain h q ys) (b : Back h (some a) ys) where
  plain-Linked : is_nested (h a).kind ≡ false → Round fix h (plain a) q ys
  unfolding inline_nested_lists linked_kind hide flat
  plain-Linked s = (
    set_next h a q,
    ground (arith, set_next_self h a q),
    single-Linked h (set_next h a q) a q ys (set_next-other h a q)
        (ground (arith, set_next_self h a q)) (ground (arith, set_next_self h a q))
        (ground (arith, set_next_self h a q)) distinct c b,
  )

  empty_import-Linked :
      is_nested (h a).kind ≡ true → (h a).nested ≡ none → Round fix h (empty_import a) q ys
  unfolding inline_nested_lists linked_kind hide flat
  empty_import-Linked s n =
      let k : Store = set_kind (set_next h a q) a skip in
      let self : k a ≡ record (h a) { next = q; kind = skip } =
        set_kind-apply (set_next h a q) a skip a ∙ ground (arith, set_next_self h a q) in
      (
        k,
        ground (arith, set_next_self h a q),
        single-Linked h k a q ys
            (λ x o. set_kind-apply (set_next h a q) a skip x ∙ rw o (set_next-other h a q x o))
            (ground arith) (ground arith) (ground arith) distinct c b,
      )

inline_import :
    (fix : Fix) (k g : Store) (a z first : Addr)
    → is_nested (k a).kind ≡ true
    → (k a).nested ≡ some z
    → fix k z ≡ done (first, g)
    → inline_nested_lists fix k a ≡ done (splice g a z first)
unfolding inline_nested_lists
inline_import fix k g a z first i n r = rw (i, n, r)

set_next-IsFile :
    (h : Store) (a : Addr) (q : Ptr) (es : Entries) (z : Addr)
    → IsFile h es z
    → has a (file es z) ≡ false
    → IsFile (set_next h a q) es z
set_next-IsFile h a q es z f out =
    let at_z : set_next h a q z ≡ h z = far z (has_in_right (flats es) (z ∷ []) z (ground arith)) in
    record {
      closes = rw at_z f.closes;
      previous = rw at_z f.previous;
      entries =
          static_cong (set_next h a q) h es (λ x i. far x (has_in_left (flats es) (z ∷ []) x i))
            f.entries;
    }
  where
    far : (x : Addr) → has x (file es z) ≡ true → set_next h a q x ≡ h x
    far x i = set_next-other h a q x (has_ne x a (file es z) i out)

imports-Linked :
    (fix : Fix) (w d : ℕ)
    → Flattens fix w d
    → (h : Store) (a : Addr) (es : Entries) (z : Addr) (q : Ptr) (ys : List Addr)
    → IsEntry h (imports a es z)
    → AllDistinct (a ∷ (file es z ++ ys))
    → Chain h q ys
    → Back h (some a) ys
    → depths es < d
    → length (file es z) ≤ w
    → Round fix h (imports a es z) q ys
unfolding IsEntry flat
imports-Linked fix w d f h a es z q ys s distinct c b l m =
    let k : Store = set_next h a q in
    let out = has-left (file es z) ys a distinct.0 in
    let is_file =
      set_next-IsFile h a q es z (record { closes = s.2; previous = s.3; entries = s.4 }) out in
    let (g, runs, linked) = f k es z is_file (distinct-left (file es z) ys distinct.1) l m in
    let (t, head) = flats-head es z [] in
    (
      splice g a z (first_addr es z),
      inline_import fix k g a z (first_addr es z)
          (ap (λ (i : Item). is_nested i.kind) (set_next_self h a q) ∙ s.0)
          (ap (λ (i : Item). i.nested) (set_next_self h a q) ∙ s.1) runs,
      splice-Linked h g a z (first_addr es z) q (flats es) ys t head distinct linked s.0 c b,
    )

-- An entry goes in front of the chain `ys`.
pub entry-Linked :
    (fix : Fix) (w d : ℕ)
    → Flattens fix w d
    → (h : Store) (e : Entry) (q : Ptr) (ys : List Addr) → IsEntry h e
    → AllDistinct (flat e ++ ys)
    → Chain h q ys
    → Back h (some (addr e)) ys
    → depth e ≤ d
    → length (flat e) ≤ suc w
    → Round fix h e q ys
unfolding IsEntry flat depth
entry-Linked fix w d f h (plain a) q ys s distinct c b l m =
    plain-Linked fix h a q ys distinct c b s
entry-Linked fix w d f h (empty_import a) q ys s distinct c b l m =
    empty_import-Linked fix h a q ys distinct c b s.0 s.1
entry-Linked fix w d f h (imports a es z) q ys s distinct c b l m =
    imports-Linked fix w d f h a es z q ys s distinct c b l (omega arith)

link_round :
    (fix : Fix) (n : ℕ) (h k : Store) (it next : Addr) (p : Ptr) {r : Run (Addr × Store)}
    → inline_nested_lists fix (set_next h it (some next)) it ≡ done k
    → (k it).previous ≡ p
    → link_loop fix n k p it ≡ r
    → link_loop fix (suc n) h (some it) next ≡ r
unfolding link_loop
link_round fix n h k it next p e q l = rw (e, q) l

-- The loop puts all entries in front of the chain `ys`.
pub link_loop-Linked :
    (fix : Fix) (w d : ℕ)
    → Flattens fix w d
    → (n : ℕ) (h : Store) (es : Entries) (next : Addr) (ys : List Addr) → IsStatic h es
    → AllDistinct (flats es ++ ys)
    → Chain h (some next) ys
    → Back h (last_ptr es) ys
    → depths es ≤ d
    → length (flats es) ≤ suc w
    → length (flats es) ≤ n
    → (g : Store) × (link_loop fix n h (last_ptr es) next ≡ done (first_addr es next, g))
      × Linked h g (flats es) ys none (first_addr es next)
unfolding IsStatic flats depths link_loop
link_loop-Linked fix w d f n h nil next ys s distinct c b l m r = (
  h,
  refl,
  record { chain = c; back = b; settled = λ x i. cc; rest = λ x i. refl; outside = λ x i j. refl },
)
link_loop-Linked fix w d f zero h (behind es e) next ys s distinct c b l m r =
    absurd (omega (arith, length-append (flats es) (flat e), length-flat e))
link_loop-Linked fix w d f (suc n) h (behind es e) next ys s distinct c b l m r =
    let split = length-append (flats es) (flat e) in
    let regroup = append_assoc (flats es) (flat e) ys in
    let apart = rw regroup at distinct in
    let (k, runs, linked) =
      entry-Linked fix w d f h e (some next) ys s.2 (distinct-right (flats es) (flat e ++ ys) apart)
        c b (omega arith) (omega (arith, split)) in
    let (t, head) = flat-head e ys in
    let before : (k (addr e)).previous ≡ last_ptr es = (rw head at linked.back).0 ∙ s.0 in
    let new : (x : Addr) → has x (flats es) ≡ true → has x (flat e ++ ys) ≡ false =
      λ x i. distinct-apart (flats es) (flat e ++ ys) x apart i in
    let (g, runs', linked') =
      link_loop-Linked fix w d f n k es (addr e) (flat e ++ ys)
        (static_cong k h es
          (λ x i.
            linked.outside x (has-left (flat e) ys x (new x i)) (has-right (flat e) ys x (new x i)))
          s.1)
        apart linked.chain (rw s.0 at linked.back) (omega arith) (omega (arith, split))
        (omega (arith, split, length-flat e)) in
    (
      g,
      link_round fix n h k (addr e) next (last_ptr es) runs before runs',
      Linked-trans h k g (flats es) (flat e) ys none _ (addr e) _ distinct linked linked',
    )
