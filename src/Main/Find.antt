-- ===== src/Main/Find.antt =====
-- src/main.c: `pcut_find_by_id`.
use pcut.Common.{ℕ, zero, suc, none, some, ℤ, int_eq, if◌then◌else◌, Run, done, out_of_fuel, ◌>>=◌}
use pcut.Item.{Ptr, Store}
use pcut.Items.{get_real, get_real_next}

unfoldable pub find_loop : ℕ → ℕ → Store → Ptr → ℤ → Run Ptr
unfolding get_real_next
find_loop w n h none id = done none
find_loop w zero h (some a) id = out_of_fuel
find_loop w (suc n) h (some a) id =
    let rest = get_real_next w h (some a) >>= λ it. find_loop w n h it id in
    if int_eq (h a).id id then done (some a) else rest

unfoldable pub find_by_id : ℕ → Store → Ptr → ℤ → Run Ptr
unfolding get_real find_loop
find_by_id w h first id = get_real w h first >>= λ it. find_loop w w h it id
