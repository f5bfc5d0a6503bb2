-- ===== src/Tests/Items.antt =====
-- Concrete items.
use pcut.Common.{
  ◌≤◌, ◌<◌, ◌≡◌, refl, Option, none, some, List, [], ◌∷◌, pos, codes, ◌==◌, Bool, true, false, ◌&&◌,
  if◌then◌else◌, done, arith, has, length, AllDistinct,
}
use pcut.Item.{
  Kind, skip, nested_list, testsuite, test, Addr, Ptr, Func, Item, Store, extra_skip, Extra,
}
use pcut.Macros.{test_skip, test_extra_last, test_set_timeout}
use pcut.Items.{detect_skipped_tests, fix_list}
use pcut.Items.Walk.{Chain}
use pcut.Items.Marks.{is_marked}
use pcut.Items.Hide.{detect_skipped_tests-is_marked}
use pcut.Items.Linked.{shown}
use pcut.Items.Tree.{
  Entries, nil, behind, plain, imports, IsFile, IsStatic, IsEntry, file, first_addr, flats, flat,
  depths, depth,
}
use pcut.Items.Flatten.{Flattened, fix_list-Flattened}
use pcut.Args.Listing.{listing}
use pcut.Main.Find.{find_by_id}
use pcut.Main.Ids.{find_by_id-item_at}

abbrev pub item : Kind → Ptr → Ptr → Option Func → Item
item k p n f = record {
  previous = p;
  next = n;
  id = pos 0;
  kind = k;
  name = codes "item";
  test_func = f;
  setup_func = none;
  teardown_func = none;
  extras = [];
  main_extras = none;
  nested = none;
}

-- A suite with a test, an import of a file with a test, and the closing item.
abbrev pub static_items : Store
static_items a =
    if a == 1
    then item testsuite none none none
    else if a == 2
    then item test (some 1) none (some 7)
    else if a == 3
    then record (item nested_list (some 2) none none) { nested = some 6 }
    else if a == 4
    then item skip (some 3) none none
    else if a == 5
    then record (item test none none (some 8)) {
      extras = record { type = extra_skip; timeout = pos 0 } ∷ [];
    }
    else item skip (some 5) none none

abbrev imported : Entries
imported = behind nil (plain 5)

abbrev pub entries : Entries
entries = behind (behind (behind nil (plain 1)) (plain 2)) (imports 3 imported 6)

pub static_items-IsFile : IsFile static_items entries 4
unfolding IsStatic IsEntry
static_items-IsFile = record {
  closes = refl;
  previous = refl;
  entries = (refl, (refl, (refl, tt, refl), refl), (refl, refl, refl, refl, (refl, tt, refl)));
}

pub entries-AllDistinct : AllDistinct (file entries 4)
unfolding flats flat
entries-AllDistinct = (refl, (refl, (refl, (refl, (refl, (refl, tt))))))

pub entries_depth : depths entries < 2
unfolding depths depth
entries_depth = omega arith

pub entries_length : length (file entries 4) ≤ 6
unfolding flats flat
entries_length = omega arith

fix_list-Flattened_example :
    (g : Store) × (fix_list 6 2 static_items 4 ≡ done (first_addr entries 4, g))
    × Flattened static_items g (file entries 4) (first_addr entries 4)
fix_list-Flattened_example =
    fix_list-Flattened 6 2 static_items entries 4 static_items-IsFile entries-AllDistinct
      entries_depth entries_length

-- The listing of these items: the test marked PCUT_TEST_SKIP and the imports are not in it.
listing_run :
    listing static_items 1 (file entries 4) ≡ codes "  Suite `item' [1]\n    Test `item' [2]\n"
unfolding flats shown pcut.Common.decimal
listing_run = refl

-- The same list, linked and numbered.
abbrev pub linked_items : Store
linked_items a =
    if a == 1
    then record (item testsuite none (some 2) none) { id = pos 1; teardown_func = some 9 }
    else if a == 2
    then record (item test (some 1) (some 3) (some 7)) { id = pos 2 }
    else if a == 3
    then item skip (some 2) (some 4) none
    else record (item test (some 3) none (some 8)) { id = pos 3 }

abbrev pub linked_rest : List Addr
linked_rest = 2 ∷ 3 ∷ 4 ∷ []

pub linked-Chain : Chain linked_items (linked_items 1).next linked_rest
linked-Chain = (refl, (refl, (refl, refl)))

linked-AllDistinct : AllDistinct (1 ∷ linked_rest)
linked-AllDistinct = (refl, (refl, (refl, (refl, tt))))

-- A suite and a test with a mark behind a timeout, and one with a mark behind the last extra.
abbrev marks : List Extra
marks = test_set_timeout (pos 3) ∷ test_skip ∷ test_extra_last ∷ []

abbrev marked_items : Store
marked_items a =
    if a == 1
    then record (linked_items 1) { extras = marks }
    else if a == 2
    then record (linked_items 2) { extras = marks }
    else if a == 4
    then record (linked_items 4) { extras = test_extra_last ∷ test_skip ∷ [] }
    else linked_items a

abbrev is_hidden : Addr → Bool
is_hidden x = has x (1 ∷ linked_rest) && is_marked (marked_items x)

which_hidden : (is_hidden 1 ≡ false) × (is_hidden 2 ≡ true) × (is_hidden 4 ≡ false)
which_hidden = (refl, refl, refl)

detect_skipped_tests-is_marked_example :
    (g : Store) × (detect_skipped_tests 4 marked_items 1 ≡ done g)
    × ((x : Addr)
        → g x ≡ (if is_hidden x then record (marked_items x) { kind = skip } else marked_items x))
detect_skipped_tests-is_marked_example =
    detect_skipped_tests-is_marked 4 marked_items 1 linked_rest (refl, (refl, (refl, refl)))
      linked-AllDistinct (omega arith)

find_by_id-item_at_example : find_by_id 4 linked_items (some 1) (pos 3) ≡ done (some 4)
find_by_id-item_at_example =
    find_by_id-item_at 4 linked_items 1 linked_rest 2 linked-Chain (refl, (refl, (refl, tt)))
      (omega arith)
