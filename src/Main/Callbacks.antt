-- ===== src/Main/Callbacks.antt =====
-- src/main.c: `set_setup_teardown_callbacks`.
use pcut.Common.{ℕ, zero, suc, Option, none, some, Run, done, out_of_fuel, ◌>>=◌}
use pcut.Item.{Addr, Ptr, Func, Store, write, skip, nested_list, setup, teardown, testsuite, test}
use pcut.Items.{get_real_next}

-- `active_suite->setup_func = f` behind its test, and `it->kind = PCUT_KIND_SKIP`
abbrev pub set_setup : Store → Ptr → Option Func → Store
set_setup h none f = h
set_setup h (some s) f = write h s (record (h s) { setup_func = f })

abbrev pub set_teardown : Store → Ptr → Option Func → Store
set_teardown h none f = h
set_teardown h (some s) f = write h s (record (h s) { teardown_func = f })

abbrev pub mark_skip : Store → Addr → Store
mark_skip h a = write h a (record (h a) { kind = skip })

-- One round: the new `active_suite` and the store.
unfoldable pub callback_round : Store → Ptr → Addr → Ptr × Store
callback_round h active it = elim (h it).kind [
  | testsuite ↦ (some it, h)
  | setup ↦ (active, mark_skip (set_setup h active (h it).setup_func) it)
  | teardown ↦ (active, mark_skip (set_teardown h active (h it).teardown_func) it)
  | skip ↦ (active, h)
  | nested_list ↦ (active, h)
  | test ↦ (active, h)
]

unfoldable pub callbacks_loop : ℕ → ℕ → Store → Ptr → Ptr → Run Store
unfolding get_real_next callback_round
callbacks_loop w n h active none = done h
callbacks_loop w zero h active (some it) = out_of_fuel
callbacks_loop w (suc n) h active (some it) =
    let r = callback_round h active it in
    get_real_next w r.1 (some it) >>= λ next. callbacks_loop w n r.1 r.0 next

unfoldable pub set_setup_teardown_callbacks : ℕ → Store → Ptr → Run Store
unfolding callbacks_loop
set_setup_teardown_callbacks w h first = callbacks_loop w w h none first
