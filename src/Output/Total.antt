-- ===== src/Output/Total.antt =====
-- `parse_command_output` ends on every input.
use pcut.Common.{
  ℕ, zero, suc, ◌+◌, ◌≤◌, ◌<◌, ◌≡◌, refl, [], ◌∷◌, Bytes, ◌==◌, done, length, drop, length-drop,
  arith, inl, inr, Bool-cases, Option-cases, Option-cases,
}
use pcut.Output.{
  Buffers, Parsed, parsed, bad_read, parse_loop, parse_command_output, cleared, last_byte,
  store_text, skip_zeros, str_size, Scan, text_at, ended, past_end,
}

-- A text that the scan finds is a part of the output that is not empty.
abbrev Shorter : ℕ → Scan → Type 0
Shorter n (text_at k t) = (length t ≤ n) × (0 < length t)
Shorter n ended = Unit {0}
Shorter n past_end = Unit {0}

skip_zeros-Shorter : (out : Bytes) (k n : ℕ) → length out ≤ n → Shorter n (skip_zeros out k)
unfolding skip_zeros
skip_zeros-Shorter [] k n l = tt
skip_zeros-Shorter (b ∷ []) k n l = ground arith
skip_zeros-Shorter (b ∷ c ∷ r) k n l = elim (Bool-cases (b == 0)) [
  | inl e ↦ rw e (skip_zeros-Shorter (c ∷ r) (k + 1) n (omega arith))
  | inr e ↦ rw e (omega arith)
]

parse_round :
    (f : ℕ) (out : Bytes) (s : Buffers) (scan : Scan)
    → skip_zeros out 0 ≡ scan
    → Shorter f scan
    → ((rest : Bytes) (r : Buffers)
        → length rest < f
        → (p : Parsed) × (parse_loop f rest r ≡ done p))
    → (p : Parsed) × (parse_loop (suc f) out s ≡ done p)
unfolding parse_loop
parse_round f out s ended e l ih = (parsed s, ground arith)
parse_round f out s past_end e l ih = (bad_read, ground arith)
parse_round f out s (text_at k t) e l ih = elim (Option-cases (str_size t)) [
  | inl u ↦ (bad_read, ground arith)
  | inr (n, u) ↦ elim (Option-cases (store_text k t n s)) [
    | inl v ↦ (parsed s, ground arith)
    | inr (r, v) ↦
        let (p, runs) = ih (drop (n + 1) t) r (omega (arith, length-drop (n + 1) t)) in
        (p, ground arith)
  ]
]

parse_loop-total :
    (f : ℕ) (out : Bytes) (s : Buffers)
    → length out < f
    → (p : Parsed) × (parse_loop f out s ≡ done p)
parse_loop-total zero out s l = absurd (omega arith)
parse_loop-total (suc f) out s l =
    parse_round f out s (skip_zeros out 0) refl (skip_zeros-Shorter out 0 f (omega arith))
      (λ rest r m. parse_loop-total f rest r m)

-- The parser of the output ends on every input, with a result or with a read outside of the
-- output.
pub parse_command_output-total :
    (out : Bytes) (n m : ℕ) → (p : Parsed) × (parse_command_output out n m ≡ done p)
unfolding parse_command_output
parse_command_output-total out n m = elim (Option-cases (last_byte out)) [
  | inl e ↦ (bad_read, ground arith)
  | inr (b, e) ↦ elim (Bool-cases (b == 0)) [
    | inl z ↦
        let (p, runs) = parse_loop-total (suc (length out)) out (cleared n m) (omega arith) in
        (p, ground arith)
    | inr z ↦ (parsed (cleared n m), ground arith)
  ]
]
