-- ===== src/Macros/Begun.antt =====
-- include/pcut/tests.h: the items of PCUT_INIT at the front of a source file.
use pcut.Common.{◌≡◌, refl, ap, List, [], ◌∷◌, ◌++◌}
use pcut.Item.{Addr, Store}
use pcut.Items.Tree.{flats, flat}
use pcut.Macros.{Source, declares, pcut_init, init_item, default_suite_item}
use pcut.Macros.Layout.{Holds, entries_of, entry_of}

-- The two items of PCUT_INIT stand before all others of the file.
pub Holds-init_item :
    (h : Store) (s : Source)
    → Holds h s
    → (a : Addr) × (b : Addr) × ((more : List Addr) × (flats (entries_of s) ≡ a ∷ b ∷ more)
        × (h a ≡ init_item)
        × (h b ≡ default_suite_item a))
unfolding Holds entries_of flats flat
Holds-init_item h (pcut_init a b) o = (a, b, ([], refl, o.0, o.1))
Holds-init_item h (declares s x d) o =
    let (a, b, (more, e, first, suite)) = Holds-init_item h s o.1 in
    (a, b, (more ++ flat (entry_of x d), ap (λ xs. xs ++ flat (entry_of x d)) e, first, suite))
