-- ===== src/Report/State.antt =====
-- The state of the reporting: the counters of src/report/tap.c and src/report/xml.c, the registered
-- handler, and what has been printed to the standard output.
use pcut.Common.{ℕ, Option, ◌++◌, Bytes, Run}
use pcut.Item.{Ptr, Item, Store}

-- The static counters of tap.c; they count the tests that are linked into one program.
pub record TapCounters : Type 0 where
  pub test_counter : ℕ
  pub failed_test_counter : ℕ
  pub tests_in_suite : ℕ
  pub failed_tests_in_suite : ℕ

-- Those of xml.c.
pub record XmlCounters : Type 0 where
  pub test_counter : ℕ
  pub tests_in_suite : ℕ
  pub failed_tests_in_suite : ℕ

-- The two values of `pcut_report_ops_t` that there are.
pub data Handler : Type 0 where
  tap_handler xml_handler : Handler

pub record Report : Type 0 where
  pub report_ops : Option Handler
  pub tap : TapCounters
  pub xml : XmlCounters
  pub out : Bytes

-- printf to the standard output
unfoldable pub print : Bytes → Report → Report
print text r = record r { out = r.out ++ text }

-- struct pcut_report_ops; `finish` is its field `done`.
pub record ReportOps : Type 0 where
  pub init : Option (ℕ → Store → Ptr → Report → Run Report)
  pub finish : Option (Report → Report)
  pub suite_start : Option (Item → Report → Report)
  pub suite_done : Option (Item → Report → Report)
  pub test_start : Option (Item → Report → Report)
  pub test_done : Option (Item → ℕ → Option Bytes → Option Bytes → Option Bytes → Report → Report)
