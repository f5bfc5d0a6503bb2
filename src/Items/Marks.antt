-- ===== src/Items/Marks.antt =====
-- The marks of PCUT_TEST_SKIP, as `detect_skipped_tests` of src/list.c reads them.
use pcut.Common.{◌≡◌, refl, ap, Bool, true, false, ◌||◌, List, [], ◌∷◌, if◌then◌else◌}
use pcut.Item.{
  Item, Kind, test, skip, nested_list, setup, teardown, testsuite, Extra, ExtraType, extra_last,
  extra_skip, extra_timeout,
}
use pcut.Items.{hide, has_skip_mark}

-- The extras up to the first PCUT_EXTRA_LAST.
abbrev pub before_last : List Extra → List Extra
before_last [] = []
before_last (e ∷ es) = elim e.type [
  | extra_last ↦ []
  | extra_skip ↦ e ∷ before_last es
  | extra_timeout ↦ e ∷ before_last es
]

abbrev pub is_skip_mark : ExtraType → Bool
is_skip_mark extra_skip = true
is_skip_mark extra_timeout = false
is_skip_mark extra_last = false

abbrev pub any_skip_mark : List Extra → Bool
any_skip_mark [] = false
any_skip_mark (e ∷ es) = is_skip_mark e.type || any_skip_mark es

-- A test with a skip mark among its extras.
abbrev pub is_marked : Item → Bool
is_marked it = elim it.kind [
  | test ↦ any_skip_mark (before_last it.extras)
  | skip ↦ false
  | nested_list ↦ false
  | setup ↦ false
  | teardown ↦ false
  | testsuite ↦ false
]

has_skip_mark-any : (es : List Extra) → has_skip_mark es ≡ any_skip_mark (before_last es)
unfolding has_skip_mark
has_skip_mark-any [] = refl
has_skip_mark-any (e ∷ es) = by_type e.type (has_skip_mark-any es)
  where
    by_type :
        (t : ExtraType)
        → has_skip_mark es ≡ any_skip_mark (before_last es)
        → has_skip_mark (record e { type = t } ∷ es)
          ≡ any_skip_mark (before_last (record e { type = t } ∷ es))
    by_type extra_last rest = refl
    by_type extra_skip rest = refl
    by_type extra_timeout rest = rest

pub hide-is_marked :
    (it : Item) → hide it ≡ (if is_marked it then record it { kind = skip } else it)
unfolding hide
hide-is_marked it = by_kind it.kind
  where
    by_kind :
        (k : Kind)
        → hide (record it { kind = k }) ≡ (
            if is_marked (record it { kind = k })
            then record it { kind = skip }
            else record it { kind = k })
    by_kind test =
        ap (λ b. if b then record it { kind = skip } else record it { kind = test })
          (has_skip_mark-any it.extras)
    by_kind skip = refl
    by_kind nested_list = refl
    by_kind setup = refl
    by_kind teardown = refl
    by_kind testsuite = refl
