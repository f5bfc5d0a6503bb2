-- ===== src/Tests/Startup.antt =====
-- The start of a program: its items, its callbacks and its command line.
use pcut.Common.{
  ℕ, ◌≡◌, refl, true, false, none, some, List, [], ◌∷◌, Bytes, arith, done, has, ◌==◌, leb,
  if◌then◌else◌,
}
use pcut.Item.{Addr, Func, Store, setup, testsuite, test}
use pcut.TestRun.{run_test_forked}
use pcut.Macros.Layout.{last_item}
use pcut.Macros.Names.{counter, scope, look_up, item_name_prev, look_up-last_item}
use pcut.Main.Ends.{Runner}
use pcut.Main.Callbacks.{set_setup_teardown_callbacks}
use pcut.Main.Collected.Suites.{final, behind}
use pcut.Main.Collected.Final.{set_setup_teardown_callbacks-final}
use pcut.Tests.Items.{item}
use pcut.Tests.Stories.{call}
use pcut.Tests.Sources.{main_file}

look_up-last_item_example :
    look_up (item_name_prev (counter main_file)) (scope main_file)
    ≡ (if leb (counter main_file) 300 then last_item main_file else none)
look_up-last_item_example = look_up-last_item main_file

-- The hooks of the user do nothing.
abbrev pub no_preinit : Func → List Bytes → ℕ → List Bytes × ℕ
no_preinit f argv u = (argv, u)

abbrev pub no_init : Func → ℕ → ℕ
no_init f u = u

abbrev pub run_here : Runner ℕ
run_here mode a w = run_test_forked call 4 a w

-- A suite with a set-up function and a test.
abbrev hooked_items : Store
hooked_items a =
    if a == 1
    then item testsuite none (some 2) none
    else if a == 2
    then record (item setup (some 1) (some 3) none) { setup_func = some 5 }
    else item test (some 2) none (some 7)

abbrev hooked_rest : List Addr
hooked_rest = 2 ∷ 3 ∷ []

set_setup_teardown_callbacks-final_example :
    (g : Store) × (set_setup_teardown_callbacks 3 hooked_items (some 1) ≡ done g)
    × ((x : Addr)
        → has x (1 ∷ hooked_rest) ≡ true
        → g x ≡ final hooked_items x (behind x (1 ∷ hooked_rest)))
    × ((x : Addr) → has x (1 ∷ hooked_rest) ≡ false → g x ≡ hooked_items x)
set_setup_teardown_callbacks-final_example =
    set_setup_teardown_callbacks-final 3 hooked_items 1 hooked_rest (refl, (refl, refl))
      (refl, (refl, (refl, tt))) (omega arith)
