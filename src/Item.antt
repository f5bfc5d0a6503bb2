-- ===== src/Item.antt =====
-- The data of include/pcut/datadef.h: items, their extra attributes, and the store that holds them.
--
-- A pointer is `none` (NULL) or an address, so only an address can be read through. The arrays that
-- `extras` and `main_extras` point to are lists. A function pointer is a number, by which the user's
-- functions are told apart. The store is a function from addresses to items.
use pcut.Common.{ℕ, Bool, true, false, Option, List, ℤ, Bytes, ◌==◌, if◌then◌else◌}

-- PCUT_KIND_*
pub data Kind : Type 0 where
  skip nested_list setup teardown testsuite test : Kind

-- PCUT_EXTRA_*
pub data ExtraType : Type 0 where
  extra_timeout extra_skip extra_last : ExtraType

-- PCUT_MAIN_EXTRA_*
pub data MainExtraType : Type 0 where
  preinit_hook_extra init_hook_extra report_xml_extra main_extra_last : MainExtraType

-- struct pcut_extra
pub record Extra : Type 0 where
  pub type : ExtraType
  pub timeout : ℤ

abbrev pub Addr : Type 0
Addr = ℕ

abbrev pub Ptr : Type 0
Ptr = Option Addr

abbrev pub Func : Type 0
Func = ℕ

-- struct pcut_main_extra
pub record MainExtra : Type 0 where
  pub type : MainExtraType
  pub init_hook : Option Func
  pub preinit_hook : Option Func

-- struct pcut_item
pub record Item : Type 0 where
  pub previous : Ptr
  pub next : Ptr
  pub id : ℤ
  pub kind : Kind
  pub name : Bytes
  pub test_func : Option Func
  pub setup_func : Option Func
  pub teardown_func : Option Func
  pub extras : List Extra
  pub main_extras : Option (List MainExtra)
  pub nested : Ptr

abbrev pub Store : Type 0
Store = Addr → Item

-- `*a = it`
abbrev pub write : Store → Addr → Item → Store
write h a it x = if x == a then it else h x

-- `kind == PCUT_KIND_SKIP` and the like
abbrev pub is_skip : Kind → Bool
is_skip skip = true
is_skip _ = false

abbrev pub is_nested : Kind → Bool
is_nested nested_list = true
is_nested _ = false

abbrev pub is_testsuite : Kind → Bool
is_testsuite testsuite = true
is_testsuite _ = false

abbrev pub is_test : Kind → Bool
is_test test = true
is_test _ = false

abbrev pub is_setup : Kind → Bool
is_setup setup = true
is_setup _ = false

abbrev pub is_teardown : Kind → Bool
is_teardown teardown = true
is_teardown _ = false
