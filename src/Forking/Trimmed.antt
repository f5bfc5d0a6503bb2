-- ===== src/Forking/Trimmed.antt =====
-- The buffer that src/os/unix.c reports, for output that may end in a newline.
use pcut.Common.{
  ℕ, zero, suc, ◌-◌, ◌≤◌, ◌<◌, ◌≡◌, refl, ap, ◌∙◌, false, none, some, List, [], ◌∷◌, ◌++◌, Bytes,
  arith, length, drop, done, ◌==◌, replicate, Bool-cases, inl, inr,
}
use pcut.Item.{Item}
use pcut.Output.Parse.{zeros}
use pcut.Output.RoundTrip.{Chunk, parse-render, render, plain_text, message_lines, NoNuls}
use pcut.Output.Newline.{without_newline}
use pcut.Report.{report_test_done, report_test_done_unparsed, report_parsed}
use pcut.Report.State.{Report}
use pcut.Forking.{System, capture, cleared_output, report_captured, strip_newline, read_all}
use pcut.Forking.Reading.{joined, AllArrive, read_loop-take, take-all, read_all-nothing}

-- The two reads, one behind the other.
pub capture_steps :
    (size : ℕ) (sys : System) (b c : Bytes) (n m : ℕ)
    → read_all sys.stderr (replicate size 0) (size - 1) ≡ (b, n)
    → read_all sys.stdout b (size - 1 - n) ≡ (c, m)
    → capture size sys ≡ c
unfolding capture cleared_output
capture_steps size sys b c n m e₁ e₂ =
    ap (λ (r : Bytes × ℕ). (read_all sys.stdout r.0 (size - 1 - r.1)).0) e₁
    ∙ ap (λ (r : Bytes × ℕ). r.0) e₂

strip_newline-without :
    (xs : Bytes) (size : ℕ)
    → length xs ≤ size
    → (strip_newline xs).0 ++ drop (length (strip_newline xs).0) (replicate size 0)
      ≡ without_newline xs ++ zeros (size - length (without_newline xs))
unfolding strip_newline
strip_newline-without [] size l = let e : size - 0 ≡ size = omega arith in rw e refl
strip_newline-without (b ∷ []) zero l = absurd (omega arith)
strip_newline-without (b ∷ []) (suc n) l =
    let one : suc n - 1 ≡ n = omega arith in
    let all : suc n - 0 ≡ suc n = omega arith in
    elim (Bool-cases (b == 10)) [ inl e ↦ rw (e, all) refl | inr e ↦ rw (e, one) refl ]
strip_newline-without (b ∷ c ∷ bs) zero l = absurd (omega arith)
strip_newline-without (b ∷ c ∷ bs) (suc n) l =
    let k = length (without_newline (c ∷ bs)) in
    let e : suc n - suc k ≡ n - k = omega arith in
    rw e (ap (λ t. b ∷ t) (strip_newline-without (c ∷ bs) n (omega arith)))

-- What is captured of a process that writes to its standard output only.
pub capture-without :
    (size : ℕ) (sys : System)
    → sys.stderr ≡ []
    → AllArrive sys.stdout
    → length (joined sys.stdout) < size
    → (let out = without_newline (joined sys.stdout) in
        capture size sys ≡ out ++ zeros (size - length out))
unfolding read_all
capture-without size sys quiet a l =
    let out = joined sys.stdout in
    let first : Bytes = replicate size 0 in
    let arrived = read_loop-take sys.stdout (size - 1 - 0) a in
    let fits = take-all (size - 1 - 0) out (omega arith) in
    capture_steps size sys first _ 0 _ (rw quiet (read_all-nothing first (size - 1))) refl
    ∙ rw (arrived, fits) (strip_newline-without out size (omega arith))

-- What is captured of chunks is reported.
pub report_captured-rendered :
    (cs : List Chunk) (k outcome : ℕ) (test : Item) (r : Report)
    → NoNuls cs
    → length (plain_text cs) < 4096
    → length (message_lines cs) < 4096
    → report_captured test outcome (render cs ++ zeros (suc (suc k))) r
      ≡ done (
          some (
            outcome,
            report_test_done test outcome (some (message_lines cs)) none (some (plain_text cs)) r,
          ))
unfolding report_captured report_test_done_unparsed report_parsed
report_captured-rendered cs k outcome test r nn lp lm =
    let text : ((4096 - length (plain_text cs)) == 0) ≡ false = ground arith in
    let errors : ((4096 - length (message_lines cs)) == 0) ≡ false = ground arith in
    rw (parse-render cs k 4096 4096 nn (omega arith) (omega arith), errors, text) refl
