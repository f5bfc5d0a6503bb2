-- ===== src/Main/ListOnly.antt =====
-- src/main.c, src/list.c and src/print.c: a program that is started to list its tests.
use pcut.Common.{
  ℕ, ◌≤◌, ◌<◌, ◌≡◌, refl, ◌∙◌, true, some, List, [], ◌∷◌, ◌++◌, Bytes, codes, arith, length, done,
  has, has-append, AllDistinct,
}
use pcut.Item.{Addr, Func, Store}
use pcut.Items.{fix_list}
use pcut.Items.Tree.{Entries, IsFile, file, flats, first_addr, depths}
use pcut.Items.Flatten.{fix_list-Flattened}
use pcut.Macros.{main_extra_set_last}
use pcut.Report.{report_register_handler}
use pcut.Report.State.{tap_handler, print}
use pcut.TestRun.{World}
use pcut.Args.{str_equals, print_tests}
use pcut.Args.Listing.{listing, Flattened-listing}
use pcut.Main.{pcut_main, preinit_extras, read_args}
use pcut.Main.Ends.{ends, outcome_pass, Runner}

module _ {U : Type 0} (runner : Runner U) (preinit_hook : Func → List Bytes → U → List Bytes × U)
    (init_hook : Func → U → U) (run_here : Runner U) where
  lists :
      (d n : ℕ) (last first : Addr) (name text : Bytes) (g : Store) (w : World U)
      → fix_list n d w.store last ≡ done (first, g)
      → (g last).main_extras ≡ some (main_extra_set_last ∷ [])
      → print_tests n g (some first) ≡ done (some text)
      → pcut_main runner preinit_hook init_hook run_here d n last (name ∷ codes "-l" ∷ []) w
        ≡ ends outcome_pass (record w {
          store = g;
          report = record (w.report) { report_ops = some tap_handler; out = w.report.out ++ text };
        })
  unfolding pcut_main preinit_extras read_args str_equals report_register_handler print
  lists d n last first name text g w f e p = rw (f, e, p) refl

  -- A program that is started with the argument `-l` and has neither hooks nor the XML report
  -- prints one line for each suite and test of the file and of those that it imports, in the order
  -- of the source, with its name and its id, runs nothing, and ends with a pass; the ids count 1,
  -- 2, 3 and so on over the items that are not hidden, of which set-up and tear-down items have no
  -- line. The conditions are that the items are laid out as the macros do it, that they stand at
  -- different addresses, and that the fuel covers the nesting of the imports and the number of the
  -- items.
  pub pcut_main-listing :
      (d n : ℕ) (es : Entries) (z : Addr) (name : Bytes) (w : World U)
      → IsFile w.store es z
      → AllDistinct (file es z)
      → depths es < d
      → length (file es z) ≤ n
      → (w.store z).main_extras ≡ some (main_extra_set_last ∷ [])
      → (g : Store) × (fix_list n d w.store z ≡ done (first_addr es z, g))
        × (pcut_main runner preinit_hook init_hook run_here d n z (name ∷ codes "-l" ∷ []) w
            ≡ ends outcome_pass (record w {
              store = g;
              report = record (w.report) {
                report_ops = some tap_handler;
                out = w.report.out ++ listing w.store 1 (file es z);
              };
            }))
  pcut_main-listing d n es z name w f a dp l extras =
      let (g, runs, flat) = fix_list-Flattened n d w.store es z f a dp l in
      let z_in : has z (file es z) ≡ true = ground (arith, has-append z (flats es) (z ∷ [])) in
      (
        g,
        runs,
        lists d n z (first_addr es z) name (listing w.store 1 (file es z)) g w runs
            ((flat.settled z z_in).main_extras ∙ extras)
            (Flattened-listing n w.store g (file es z) (first_addr es z) flat l),
      )
