-- ===== src/Report.antt =====
-- src/report/report.c: the registered handler, and the calls through it.
pub mod State
pub mod Lines
pub mod Tap
pub mod Xml
pub mod Counted
pub mod Style
pub mod TapStyle
pub mod Document
pub mod XmlDocument
use pcut.Common.{ℕ, Option, none, some, Bytes, Run, done, ◌>>=◌, ◌==◌, if◌then◌else◌}
use pcut.Item.{Ptr, Item, Store}
use pcut.Output.{Buffers, Parsed, parsed, bad_read, parse_command_output, buffer_size}
use State.{Report, Handler, tap_handler, xml_handler, ReportOps}
use Tap.{pcut_report_tap}
use Xml.{pcut_report_xml}

-- The operations behind the pointer `report_ops`.
abbrev pub ops_of : Handler → ReportOps
ops_of tap_handler = pcut_report_tap
ops_of xml_handler = pcut_report_xml

-- `report_ops->op`, where neither pointer is NULL
abbrev find_op {ℓ} : {A : Type ℓ} → (ReportOps → Option A) → Report → Option A
find_op op r = elim (r.report_ops) [ none ↦ none | some h ↦ op (ops_of h) ]

-- REPORT_CALL
abbrev report_call {ℓ} : {A : Type ℓ} → Option A → (A → Report) → Report → Report
report_call none call r = r
report_call (some op) call r = call op

unfoldable pub report_register_handler : Handler → Report → Report
report_register_handler h r = record r { report_ops = some h }

unfoldable pub report_init : ℕ → Store → Ptr → Report → Run Report
report_init w h all_items r = elim (find_op (λ ops. ops.init) r) [
  | none ↦ done r
  | some op ↦ op w h all_items r
]

unfoldable pub report_suite_start : Item → Report → Report
report_suite_start suite r = report_call (find_op (λ ops. ops.suite_start) r) (λ op. op suite r) r

unfoldable pub report_suite_done : Item → Report → Report
report_suite_done suite r = report_call (find_op (λ ops. ops.suite_done) r) (λ op. op suite r) r

unfoldable pub report_test_start : Item → Report → Report
report_test_start test r = report_call (find_op (λ ops. ops.test_start) r) (λ op. op test r) r

unfoldable pub report_test_done :
    Item → ℕ → (error_message teardown_error_message extra_output : Option Bytes) → Report → Report
report_test_done test outcome e t x r =
    report_call (find_op (λ ops. ops.test_done) r) (λ op. op test outcome e t x r) r

unfoldable pub report_done : Report → Report
report_done r = report_call (find_op (λ ops. ops.finish) r) (λ op. op r) r

-- The C string in a buffer that was cleared: what was copied into it, which holds no NUL. A buffer
-- that is full has no NUL behind it, and reading its string leaves the buffer.
abbrev c_string : Bytes → ℕ → Option Bytes
c_string written left = if left == 0 then none else some written

-- `none` is a read outside the captured output or outside a buffer.
unfoldable pub report_parsed : Item → ℕ → Buffers → Report → Option Report
unfolding report_test_done
report_parsed test outcome s r = elim (c_string s.error s.error_left) [
  | none ↦ none
  | some error ↦ elim (c_string s.stdio s.stdio_left) [
    | none ↦ none
    | some extra ↦ some (report_test_done test outcome (some error) none (some extra) r)
  ]
]

unfoldable pub report_test_done_unparsed : Item → ℕ → Bytes → Report → Run (Option Report)
unfolding report_parsed
report_test_done_unparsed test outcome output r = do
  p ← parse_command_output output buffer_size buffer_size
  done (elim p [ bad_read ↦ none | parsed s ↦ report_parsed test outcome s r ])
