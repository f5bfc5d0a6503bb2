-- ===== src/Macros/Layout.antt =====
-- The macros of include/pcut/tests.h lay out static item lists.
use pcut.Common.{◌≡◌, refl, sym, ap, ◌∙◌, some, List}
use pcut.Item.{Addr, Ptr, Item, Store, MainExtra, is_nested}
use pcut.Items.Tree.{
  Entries, Entry, nil, behind, plain, imports, last_ptr, addr, IsFile, IsStatic, IsEntry,
}
use pcut.Macros.{
  Source, declares, init_item, default_suite_item, Declaration, pcut_test, pcut_test_suite,
  pcut_test_before, pcut_test_after, pcut_init, pcut_import, item_of, export_item, main_item,
}

-- The last item of the file so far.
abbrev pub last_item : Source → Ptr
last_item (pcut_init a b) = some b
last_item (declares s a d) = some a

unfoldable mutual
  -- The store holds the items of the file, and of the files that it imports.
  pub Holds : Store → Source → Type 0
  Holds h (pcut_init a b) = (h a ≡ init_item) × (h b ≡ default_suite_item a)
  Holds h (declares s a d) = (h a ≡ item_of (last_item s) d) × Holds h s × HoldsImport h d

  pub HoldsImport : Store → Declaration → Type 0
  HoldsImport h (pcut_import identifier file z) =
      (h z ≡ export_item (last_item file) identifier) × Holds h file
  HoldsImport h _ = Unit {0}

unfoldable mutual
  -- The tree of the entries.
  pub entries_of : Source → Entries
  entries_of (pcut_init a b) = behind (behind nil (plain a)) (plain b)
  entries_of (declares s a d) = behind (entries_of s) (entry_of a d)

  pub entry_of : Addr → Declaration → Entry
  entry_of a (pcut_import identifier file z) = imports a (entries_of file) z
  entry_of a _ = plain a

addr-entry_of : (a : Addr) (d : Declaration) → addr (entry_of a d) ≡ a
unfolding entry_of
addr-entry_of a (pcut_import identifier file z) = refl
addr-entry_of a (pcut_test n f x) = refl
addr-entry_of a (pcut_test_suite n) = refl
addr-entry_of a (pcut_test_before f) = refl
addr-entry_of a (pcut_test_after f) = refl

last_ptr-entries_of : (s : Source) → last_ptr (entries_of s) ≡ last_item s
unfolding entries_of
last_ptr-entries_of (pcut_init a b) = refl
last_ptr-entries_of (declares s a d) = ap (λ x. some x) (addr-entry_of a d)

previous-item_of : (p : Ptr) (d : Declaration) → (item_of p d).previous ≡ p
previous-item_of p (pcut_import identifier file z) = refl
previous-item_of p (pcut_test n f x) = refl
previous-item_of p (pcut_test_suite n) = refl
previous-item_of p (pcut_test_before f) = refl
previous-item_of p (pcut_test_after f) = refl

mutual
  unfolding Holds HoldsImport entries_of entry_of IsStatic IsEntry

  Holds-IsStatic : (h : Store) (s : Source) → Holds h s → IsStatic h (entries_of s)
  Holds-IsStatic h (pcut_init a b) o = (
    ap (λ (i : Item). i.previous) o.1,
    (ap (λ (i : Item). i.previous) o.0, tt, ap (λ (i : Item). is_nested i.kind) o.0),
    ap (λ (i : Item). is_nested i.kind) o.1,
  )
  Holds-IsStatic h (declares s a d) o = (
    ap (λ x. (h x).previous) (addr-entry_of a d)
        ∙ ap (λ (i : Item). i.previous) o.0
        ∙ previous-item_of (last_item s) d
        ∙ sym (last_ptr-entries_of s),
    Holds-IsStatic h s o.1,
    Holds-IsEntry h a (last_item s) d o.0 o.2,
  )

  Holds-IsEntry :
      (h : Store) (a : Addr) (p : Ptr) (d : Declaration)
      → h a ≡ item_of p d
      → HoldsImport h d
      → IsEntry h (entry_of a d)
  Holds-IsEntry h a p (pcut_import identifier file z) e o = (
    ap (λ (i : Item). is_nested i.kind) e,
    ap (λ (i : Item). i.nested) e,
    ap (λ (i : Item). is_nested i.kind) o.0,
    ap (λ (i : Item). i.previous) o.0 ∙ sym (last_ptr-entries_of file),
    Holds-IsStatic h file o.1,
  )
  Holds-IsEntry h a p (pcut_test n f x) e o = ap (λ (i : Item). is_nested i.kind) e
  Holds-IsEntry h a p (pcut_test_suite n) e o = ap (λ (i : Item). is_nested i.kind) e
  Holds-IsEntry h a p (pcut_test_before f) e o = ap (λ (i : Item). is_nested i.kind) e
  Holds-IsEntry h a p (pcut_test_after f) e o = ap (λ (i : Item). is_nested i.kind) e

-- The macros of a test program, closed by PCUT_MAIN, lay out a static item list as the flattening
-- expects it, however deep the files import each other.
pub Holds-IsFile :
    (h : Store) (s : Source) (z : Addr) (options : List MainExtra)
    → Holds h s
    → h z ≡ main_item (last_item s) options
    → IsFile h (entries_of s) z
Holds-IsFile h s z options o e = record {
  closes = ap (λ (i : Item). is_nested i.kind) e;
  previous = ap (λ (i : Item). i.previous) e ∙ sym (last_ptr-entries_of s);
  entries = Holds-IsStatic h s o;
}
