-- ===== src/Macros.antt =====
-- include/pcut/tests.h: the items that the macros define.
--
-- The items of a source file are chained by the address of the item before. A stringified name is an
-- argument; that each item has a name of its own in C is that each has an address of its own here.
pub mod Layout
pub mod Names
pub mod Begun
use pcut.Common.{ℕ, Option, none, some, List, [], ◌∷◌, ◌++◌, ℤ, pos, negsuc, Bytes, codes}
use pcut.Item.{
  Kind, skip, nested_list, setup, teardown, testsuite, test, Extra, extra_timeout, extra_skip,
  extra_last, Addr, Ptr, Func, MainExtra, preinit_hook_extra, init_hook_extra, report_xml_extra,
  main_extra_last, Item,
}

-- PCUT_TEST_SET_TIMEOUT, PCUT_TEST_SKIP and PCUT_TEST_EXTRA_LAST
abbrev pub test_set_timeout : ℤ → Extra
test_set_timeout time_out = record { type = extra_timeout; timeout = time_out }

abbrev pub test_skip : Extra
test_skip = record { type = extra_skip; timeout = pos 0 }

abbrev pub test_extra_last : Extra
test_extra_last = record { type = extra_last; timeout = pos 0 }

-- PCUT_MAIN_EXTRA_SET_LAST, PCUT_MAIN_SET_INIT_HOOK, PCUT_MAIN_SET_PREINIT_HOOK, PCUT_MAIN_SET_XML_REPORT
abbrev pub main_extra_set_last : MainExtra
main_extra_set_last = record { type = main_extra_last; init_hook = none; preinit_hook = none }

abbrev pub main_set_init_hook : Func → MainExtra
main_set_init_hook callback = record {
  type = init_hook_extra;
  init_hook = some callback;
  preinit_hook = none;
}

abbrev pub main_set_preinit_hook : Func → MainExtra
main_set_preinit_hook callback = record {
  type = preinit_hook_extra;
  init_hook = none;
  preinit_hook = some callback;
}

abbrev pub main_set_xml_report : MainExtra
main_set_xml_report = record { type = report_xml_extra; init_hook = none; preinit_hook = none }

mutual
  -- The macros of a source file, from the last to the first, each with the address of its item.
  -- PCUT_INIT is the first and has two items.
  pub data Source : Type 0 where
    pcut_init : Addr → Addr → Source
    declares : Source → Addr → Declaration → Source

  -- PCUT_TEST, PCUT_TEST_SUITE, PCUT_TEST_BEFORE, PCUT_TEST_AFTER, and PCUT_IMPORT with the file
  -- that has the PCUT_EXPORT.
  pub data Declaration : Type 0 where
    pcut_test : Bytes → Func → List Extra → Declaration
    pcut_test_suite : Bytes → Declaration
    pcut_test_before : Func → Declaration
    pcut_test_after : Func → Declaration
    pcut_import : Bytes → Source → Addr → Declaration

-- PCUT_ADD_ITEM with the fields of its arguments, in the order of the struct.
abbrev pub add_item :
    Ptr
    → Kind
    → Bytes
    → (test_func setup_func teardown_func : Option Func) → List Extra
    → Option (List MainExtra)
    → Ptr
    → Item
add_item before kind name t s d extras main_extras nested = record {
  previous = before;
  next = none;
  id = negsuc 0;
  kind = kind;
  name = name;
  test_func = t;
  setup_func = s;
  teardown_func = d;
  extras = extras;
  main_extras = main_extras;
  nested = nested;
}

abbrev pub item_of : Ptr → Declaration → Item
item_of before (pcut_test testname f extras) =
    add_item before test testname (some f) none none (extras ++ test_extra_last ∷ []) none none
item_of before (pcut_test_suite suitename) =
    add_item before testsuite suitename none none none [] none none
item_of before (pcut_test_before f) =
    add_item before setup (codes "setup") none (some f) none [] none none
item_of before (pcut_test_after f) =
    add_item before teardown (codes "teardown") none none (some f) [] none none
item_of before (pcut_import identifier file exported) =
    add_item before nested_list (codes "import_" ++ identifier) none none none [] none
      (some exported)

-- PCUT_INIT: the first item, which has no other before it, and the first suite.
abbrev pub init_item : Item
init_item = add_item none skip (codes "init") none none none [] none none

abbrev pub default_suite_item : Addr → Item
default_suite_item first = item_of (some first) (pcut_test_suite (codes "Default"))

-- PCUT_EXPORT
abbrev pub export_item : Ptr → Bytes → Item
export_item before identifier =
    add_item before skip (codes "exported_" ++ identifier) none none none [] none none

-- PCUT_CUSTOM_MAIN; PCUT_MAIN is the case of no options.
abbrev pub main_item : Ptr → List MainExtra → Item
main_item before options =
    add_item before skip (codes "main") none none none []
      (some (options ++ main_extra_set_last ∷ [])) none
