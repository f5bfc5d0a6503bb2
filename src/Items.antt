-- ===== src/Items.antt =====
-- src/list.c: walking, flattening, hiding and numbering the items.
pub mod Walk
pub mod Hide
pub mod Number
pub mod Links
pub mod Tree
pub mod Marks
pub mod Linked
pub mod Writes
pub mod Splice
pub mod Linking
pub mod Flatten
use pcut.Common.{
  ℕ, zero, suc, ◌+◌, Bool, true, false, not, ◌&&◌, Option, none, some, List, [], ◌∷◌, ℤ, pos,
  if◌then◌else◌, Run, done, out_of_fuel, ◌>>=◌,
}
use pcut.Item.{
  Kind, skip, ExtraType, extra_timeout, extra_skip, extra_last, Extra, Addr, Ptr, Item, Store,
  write, is_skip, is_nested, is_test,
}

-- The do-while loop of `pcut_get_real_next`, entered with `item->next`.
unfoldable pub advance : ℕ → Store → Ptr → Run Ptr
advance n h none = done none
advance zero h (some a) = out_of_fuel
advance (suc n) h (some a) =
    let rest = advance n h (h a).next in if is_skip (h a).kind then rest else done (some a)

unfoldable pub get_real_next : ℕ → Store → Ptr → Run Ptr
unfolding advance
get_real_next n h none = done none
get_real_next n h (some a) = advance n h (h a).next

unfoldable pub get_real : ℕ → Store → Ptr → Run Ptr
unfolding get_real_next
get_real n h none = done none
get_real n h (some a) = if is_skip (h a).kind then get_real_next n h (some a) else done (some a)

-- `pcut_count_tests`; the walk of each round has its own fuel `w`.
unfoldable pub count_loop : ℕ → ℕ → Store → Ptr → ℕ → Run ℕ
unfolding get_real_next
count_loop w n h none count = done count
count_loop w zero h (some a) count = out_of_fuel
count_loop w (suc n) h (some a) count = do
  it ← get_real_next w h (some a)
  count_loop w n h it (if is_test (h a).kind then count + 1 else count)

unfoldable pub count_tests : ℕ → Store → Ptr → Run ℕ
unfolding count_loop
count_tests w h it = count_loop w w h it 0

-- The loop of `set_ids`.
unfoldable pub set_ids_loop : ℕ → ℕ → Store → Ptr → ℕ → Run Store
unfolding get_real_next
set_ids_loop w n h none id = done h
set_ids_loop w zero h (some a) id = out_of_fuel
set_ids_loop w (suc n) h (some a) id =
    let h' = write h a (record (h a) { id = pos id }) in
    get_real_next w h' (some a) >>= λ it. set_ids_loop w n h' it (id + 1)

unfoldable pub set_ids : ℕ → Store → Addr → Run Store
unfolding get_real_next set_ids_loop
set_ids w h first = do
  it ← if is_skip (h first).kind then get_real_next w h (some first) else done (some first)
  set_ids_loop w w h it 1

-- The inner loop of `detect_skipped_tests`: does PCUT_EXTRA_SKIP stand before PCUT_EXTRA_LAST?
unfoldable pub has_skip_mark : List Extra → Bool
has_skip_mark [] = false
has_skip_mark (e ∷ es) = elim e.type [
  | extra_last ↦ false
  | extra_skip ↦ true
  | extra_timeout ↦ has_skip_mark es
]

-- The body of the outer loop.
unfoldable pub hide : Item → Item
unfolding has_skip_mark
hide it = if is_test it.kind && has_skip_mark it.extras then record it { kind = skip } else it

unfoldable pub detect_loop : ℕ → ℕ → Store → Ptr → Run Store
unfolding get_real_next hide
detect_loop w n h none = done h
detect_loop w zero h (some a) = out_of_fuel
detect_loop w (suc n) h (some a) =
    let h' = write h a (hide (h a)) in get_real_next w h' (some a) >>= λ it. detect_loop w n h' it

unfoldable pub detect_skipped_tests : ℕ → Store → Addr → Run Store
unfolding get_real_next detect_loop
detect_skipped_tests w h first = do
  it ← if is_skip (h first).kind then get_real_next w h (some first) else done (some first)
  detect_loop w w h it

-- A pointer write to one field of an item.
unfoldable pub set_next : Store → Addr → Ptr → Store
set_next h a p = write h a (record (h a) { next = p })

unfoldable pub set_previous : Store → Addr → Ptr → Store
set_previous h a p = write h a (record (h a) { previous = p })

unfoldable pub set_kind : Store → Addr → Kind → Store
set_kind h a k = write h a (record (h a) { kind = k })

-- `nested->next->previous = p` under its test
unfoldable pub set_next_previous : Store → Ptr → Ptr → Store
unfolding set_previous
set_next_previous h none p = h
set_next_previous h (some b) p = set_previous h b p

-- The writes of `inline_nested_lists` behind the recursive call, which returned `first`.
unfoldable pub splice : Store → Addr → Addr → Addr → Store
splice h nested inner first =
    let h₁ = set_next h inner (h nested).next in
    let h₂ = set_next_previous h₁ (h₁ nested).next (some inner) in
    let h₃ = set_next h₂ nested (some first) in
    let h₄ = set_previous h₃ first (some nested) in set_kind h₄ nested skip

-- `inline_nested_lists`; `fix` is the recursive call of `pcut_fix_list_get_real_head`.
unfoldable pub inline_nested_lists : (Store → Addr → Run (Addr × Store)) → Store → Addr → Run Store
unfolding splice set_kind
inline_nested_lists fix h nested =
    if not (is_nested (h nested).kind) then done h else elim (h nested).nested [
      | none ↦ done (set_kind h nested skip)
      | some inner ↦ fix h inner >>= λ r. done (splice r.1 nested inner r.0)
    ]

-- The loop of `pcut_fix_list_get_real_head`, towards the front; returns the head.
unfoldable pub link_loop :
    (Store → Addr → Run (Addr × Store)) → ℕ → Store → Ptr → Addr → Run (Addr × Store)
unfolding inline_nested_lists set_next
link_loop fix n h none next = done (next, h)
link_loop fix zero h (some it) next = out_of_fuel
link_loop fix (suc n) h (some it) next = do
  h' ← inline_nested_lists fix (set_next h it (some next)) it
  link_loop fix n h' (h' it).previous it

-- `pcut_fix_list_get_real_head`: `depth` bounds the nesting, `w` the rounds of each loop.
unfoldable pub fix_list : ℕ → ℕ → Store → Addr → Run (Addr × Store)
unfolding inline_nested_lists link_loop set_next detect_skipped_tests set_ids
fix_list w zero h last = out_of_fuel
fix_list w (suc depth) h last = do
  h₁ ← inline_nested_lists (fix_list w depth) (set_next h last none) last
  (next, h₂) ← link_loop (fix_list w depth) w h₁ (h₁ last).previous last
  h₃ ← detect_skipped_tests w h₂ next
  h₄ ← set_ids w h₃ next
  done (next, h₄)
