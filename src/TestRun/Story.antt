-- ===== src/TestRun/Story.antt =====
-- What a test amounts to, told without flags and jumps: the set-up, the test unless the set-up
-- failed, and then the tear-down in any case.
use pcut.Common.{
  ℕ, ◌≡◌, sym, ap, Option, none, some, [], ◌++◌, Bytes, append-nil, append_assoc, arith,
}
use pcut.Item.{Func, Item}
use pcut.Report.State.{Report, print}
use pcut.TestRun.{Called, returns, fails, World, End, returned, run_setup_teardown, call_user}

-- The text that a function printed, and the message with which it failed, if it did.
pub record Stage (U : Type 0) : Type 0 where
  pub text : Bytes
  pub message : Option Bytes
  pub user : U

pub record Story (U : Type 0) : Type 0 where
  pub body : Stage U
  pub teardown : Stage U

-- 0 for a pass, 1 for a failure
abbrev pub outcome : Option Bytes → Option Bytes → ℕ
outcome none none = 0
outcome none (some m) = 1
outcome (some m) t = 1

abbrev pub verdict : {U : Type 0} → Story U → ℕ
verdict st = outcome st.body.message st.teardown.message

pub print_nil : (r : Report) → print [] r ≡ r
unfolding print
print_nil r = ap (λ (t : Bytes). record r { out = t }) (append-nil r.out)

module _ {U : Type 0} (call : Func → U → Called U) where
  abbrev called : Called U → Stage U
  called (returns t u) = record { text = t; message = none; user = u }
  called (fails t m u) = record { text = t; message = some m; user = u }

  abbrev pub stage : Option Func → U → Stage U
  stage none u = record { text = []; message = none; user = u }
  stage (some f) u = called (call f u)

  -- the second function only if the first did not fail
  abbrev pub and_then : Stage U → (U → Stage U) → Stage U
  and_then first next = elim (first.message) [
    | some m ↦ first
    | none ↦ record {
      text = first.text ++ (next first.user).text;
      message = (next first.user).message;
      user = (next first.user).user;
    }
  ]

  abbrev pub story : Item → Func → U → Story U
  story suite test u =
      let body = and_then (stage suite.setup_func u) (stage (some test)) in
      record { body = body; teardown = stage suite.teardown_func body.user }

  abbrev pub after : World U → Stage U → World U
  after w st = record w { user = st.user; report = print st.text w.report }

  -- a stage that was run, in the code's terms
  abbrev pub settle_message : (Bytes → World U → End U) → World U → Option Bytes → End U
  settle_message fail w none = returned w
  settle_message fail w (some m) = fail m w

  abbrev pub settle : (Bytes → World U → End U) → World U → Stage U → End U
  settle fail w st = settle_message fail (after w st) st.message

  pub call_user-settle :
      (fail : Bytes → World U → End U) (f : Func) (w : World U)
      → call_user call fail f w ≡ settle fail w (stage (some f) w.user)
  unfolding call_user
  call_user-settle fail f w = ground arith

  pub run_setup_teardown-settle :
      (fail : Bytes → World U → End U) (f : Option Func) (w : World U)
      → run_setup_teardown call fail f w ≡ settle fail w (stage f w.user)
  unfolding run_setup_teardown
  run_setup_teardown-settle fail none w =
      ap (λ (r : Report). returned (record w { report = r })) (sym (print_nil w.report))
  run_setup_teardown-settle fail (some f) w = call_user-settle fail f w

pub print-print : (t u : Bytes) (r : Report) → print u (print t r) ≡ print (t ++ u) r
unfolding print
print-print t u r = ap (λ (x : Bytes). record r { out = x }) (append_assoc r.out t u)
