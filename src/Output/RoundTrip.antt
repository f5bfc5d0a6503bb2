-- ===== src/Output/RoundTrip.antt =====
-- Parsing what a test process wrote gives back its standard output and its error messages.
use pcut.Common.{
  ℕ, zero, suc, ◌+◌, ◌-◌, ◌≤◌, ◌<◌, ◌≡◌, refl, sym, ap, ◌∙◌, false, some, List, [], ◌∷◌, ◌++◌,
  Bytes, ◌==◌, Run, done, length, arith, append-nil, append_assoc, length-append,
}
use pcut.Output.{
  Buffers, Parsed, parsed, print_fail_message, parse_loop, parse_command_output, cleared, last_byte,
}
use pcut.Output.Parse.{NoNul, zeros, parse_loop-end, parse_loop-stdio, parse_loop-error}

-- What the process of a test writes: text of its own, and failure messages.
pub data Chunk : Type 0 where
  plain : Bytes → Chunk
  failure : Bytes → Chunk

abbrev pub render : List Chunk → Bytes
render [] = []
render (plain t ∷ cs) = t ++ render cs
render (failure m ∷ cs) = print_fail_message (some m) ++ render cs

-- its text, and its messages, each with a newline
abbrev pub plain_text : List Chunk → Bytes
plain_text [] = []
plain_text (plain t ∷ cs) = t ++ plain_text cs
plain_text (failure m ∷ cs) = plain_text cs

abbrev pub message_lines : List Chunk → Bytes
message_lines [] = []
message_lines (plain t ∷ cs) = message_lines cs
message_lines (failure [] ∷ cs) = message_lines cs
message_lines (failure (b ∷ m) ∷ cs) = (b ∷ m) ++ b'\n' ∷ message_lines cs

abbrev pub NoNuls : List Chunk → Type 0
NoNuls [] = Unit {0}
NoNuls (plain t ∷ cs) = NoNul t × NoNuls cs
NoNuls (failure m ∷ cs) = NoNul m × NoNuls cs

NoNul-append : (t u : Bytes) → NoNul t → NoNul u → NoNul (t ++ u)
NoNul-append [] u n m = m
NoNul-append (b ∷ t) u n m = (n.0, NoNul-append t u n.1 m)

-- both buffers with more copied into them
abbrev pub grown : Buffers → Bytes → Bytes → Buffers
grown s o e = record s {
  stdio = s.stdio ++ o;
  stdio_left = s.stdio_left - length o;
  error = s.error ++ e;
  error_left = s.error_left - length e;
}

buffers_eq :
    (r s : Buffers)
    → r.stdio ≡ s.stdio
    → r.stdio_left ≡ s.stdio_left
    → r.error ≡ s.error
    → r.error_left ≡ s.error_left
    → r ≡ s
buffers_eq r s a b c d = ground arith

grown-grown : (s : Buffers) (o p e f : Bytes) → grown (grown s o e) p f ≡ grown s (o ++ p) (e ++ f)
grown-grown s o p e f =
    buffers_eq (grown (grown s o e) p f) (grown s (o ++ p) (e ++ f)) (append_assoc s.stdio o p)
      (omega (arith, length-append o p)) (append_assoc s.error e f)
      (omega (arith, length-append e f))

failure-shape :
    (c : ℕ) (m rest : Bytes)
    → print_fail_message (some (c ∷ m)) ++ rest ≡ zeros 3 ++ c ∷ ((m ++ b'\n' ∷ []) ++ 0 ∷ rest)
unfolding print_fail_message
failure-shape c m rest = rw (suc-ne (length m)) (ap (λ xs. 0 ∷ 0 ∷ 0 ∷ c ∷ xs) (simp append_assoc))
  where
    suc-ne : (n : ℕ) → (suc n == 0) ≡ false
    suc-ne n = ground arith

failure-nil : print_fail_message (some []) ≡ []
unfolding print_fail_message
failure-nil = refl

-- a text after fewer than two zeros
pub step_stdio :
    (f n b : ℕ) (t r : Bytes) (s : Buffers)
    → NoNul (b ∷ t)
    → n < 2
    → length (b ∷ t) ≤ s.stdio_left
    → parse_loop (suc f) (zeros n ++ b ∷ (t ++ 0 ∷ r)) s ≡ parse_loop f r (grown s (b ∷ t) [])
step_stdio f n b t r s nn few fits =
    parse_loop-stdio f n b t r s nn few fits
    ∙ ap (parse_loop f r)
        (buffers_eq _ (grown s (b ∷ t) []) refl refl (sym (append-nil s.error)) (omega arith))

-- a failure message after two zeros or more
step_error :
    (f n c : ℕ) (m r : Bytes) (s : Buffers)
    → NoNul (c ∷ m)
    → 2 ≤ n
    → length ((c ∷ m) ++ b'\n' ∷ []) ≤ s.error_left
    → parse_loop (suc f) (zeros n ++ c ∷ ((m ++ b'\n' ∷ []) ++ 0 ∷ r)) s
      ≡ parse_loop f r (grown s [] ((c ∷ m) ++ b'\n' ∷ []))
step_error f n c m r s nn many fits =
    parse_loop-error f n c (m ++ b'\n' ∷ []) r s (nn.0, NoNul-append m (b'\n' ∷ []) nn.1 (refl, tt))
      many fits
    ∙ ap (parse_loop f r) (
        buffers_eq _ (grown s [] ((c ∷ m) ++ b'\n' ∷ [])) (sym (append-nil s.stdio)) (omega arith)
          refl refl)

abbrev result : Buffers → Bytes → Bytes → Run Parsed
result s o e = done (parsed (grown s o e))

result-grown :
    (s : Buffers) (o p e f : Bytes) → result (grown s o e) p f ≡ result s (o ++ p) (e ++ f)
result-grown s o p e f = ap (λ r. done (parsed r)) (grown-grown s o p e f)

abbrev line_of : ℕ → Bytes → Bytes
line_of c m = (c ∷ m) ++ b'\n' ∷ []

length-message :
    (c : ℕ) (m ls : Bytes) → length ((c ∷ m) ++ b'\n' ∷ ls) ≡ length (line_of c m) + length ls
length-message c m ls = omega (arith, length-append m (b'\n' ∷ ls), length-append m (b'\n' ∷ []))

length-print :
    (c : ℕ) (m rest : Bytes)
    → length (print_fail_message (some (c ∷ m)) ++ rest) ≡ length (line_of c m) + length rest + 4
length-print c m rest =
    ap length (failure-shape c m rest) ∙ omega (arith, length-append (m ++ b'\n' ∷ []) (0 ∷ rest))

-- From text `t` in hand and the chunks `cs` to come, to the end.
parse_loop-chunks :
    (cs : List Chunk) (t : Bytes) (f k : ℕ) (s : Buffers)
    → NoNul t
    → NoNuls cs
    → length t + length (plain_text cs) ≤ s.stdio_left
    → length (message_lines cs) ≤ s.error_left
    → length t + length (render cs) < f
    → parse_loop f (t ++ (render cs ++ zeros (suc (suc k)))) s
      ≡ result s (t ++ plain_text cs) (message_lines cs)
parse_loop-chunks cs t zero k s nt nc a b l = absurd (omega arith)
parse_loop-chunks [] [] (suc f) k s nt nc a b l =
    parse_loop-end f (suc k) s
    ∙ ap (λ r. done (parsed r))
        (buffers_eq s (grown s [] []) (sym (append-nil s.stdio)) (omega arith)
          (sym (append-nil s.error)) (omega arith))
parse_loop-chunks [] (c ∷ u) (suc zero) k s nt nc a b l = absurd (omega arith)
parse_loop-chunks [] (c ∷ u) (suc (suc f)) k s nt nc a b l =
    step_stdio (suc f) 0 c u (zeros (suc k)) s nt (omega arith) (omega arith)
    ∙ parse_loop-end f k (grown s (c ∷ u) [])
    ∙ ap (λ x. result s x []) (sym (append-nil (c ∷ u)))
parse_loop-chunks (plain u ∷ cs) t (suc f) k s nt nc a b l =
    ap (λ x. parse_loop (suc f) x s)
      (ap (λ x. t ++ x) (append_assoc u (render cs) (zeros (suc (suc k))))
        ∙ sym (append_assoc t u (render cs ++ zeros (suc (suc k)))))
    ∙ parse_loop-chunks cs (t ++ u) (suc f) k s (NoNul-append t u nt nc.0) nc.1
        (omega (arith, length-append t u, length-append u (plain_text cs))) b
        (omega (arith, length-append t u, length-append u (render cs)))
    ∙ ap (λ x. result s x (message_lines cs)) (append_assoc t u (plain_text cs))
parse_loop-chunks (failure [] ∷ cs) t (suc f) k s nt nc a b l =
    rw failure-nil (parse_loop-chunks cs t (suc f) k s nt nc.1 a b (rw failure-nil at l))
parse_loop-chunks (failure (c ∷ m) ∷ cs) [] (suc f) k s nt nc a b l =
    ap (λ x. parse_loop (suc f) x s)
      (append_assoc (print_fail_message (some (c ∷ m))) (render cs) (zeros (suc (suc k)))
        ∙ failure-shape c m (render cs ++ zeros (suc (suc k))))
    ∙ step_error f 3 c m (render cs ++ zeros (suc (suc k))) s nc.0 (omega arith)
        (omega (arith, length-message c m (message_lines cs)))
    ∙ parse_loop-chunks cs [] f k (grown s [] ((c ∷ m) ++ b'\n' ∷ [])) tt nc.1 (omega arith)
        (omega (arith, length-message c m (message_lines cs)))
        (omega (arith, length-print c m (render cs)))
    ∙ result-grown s [] (plain_text cs) ((c ∷ m) ++ b'\n' ∷ []) (message_lines cs)
    ∙ ap (λ x. result s (plain_text cs) x) (append_assoc (c ∷ m) (b'\n' ∷ []) (message_lines cs))
parse_loop-chunks (failure (c ∷ m) ∷ cs) (d ∷ u) (suc zero) k s nt nc a b l = absurd (omega arith)
parse_loop-chunks (failure (c ∷ m) ∷ cs) (d ∷ u) (suc (suc f)) k s nt nc a b l =
    ap (λ x. parse_loop (suc (suc f)) ((d ∷ u) ++ x) s)
      (append_assoc (print_fail_message (some (c ∷ m))) (render cs) (zeros (suc (suc k)))
        ∙ failure-shape c m (render cs ++ zeros (suc (suc k))))
    ∙ step_stdio (suc f) 0 d u
        (zeros 2 ++ c ∷ ((m ++ b'\n' ∷ []) ++ 0 ∷ (render cs ++ zeros (suc (suc k))))) s nt
        (omega arith) (omega arith)
    ∙ step_error f 2 c m (render cs ++ zeros (suc (suc k))) (grown s (d ∷ u) []) nc.0 (omega arith)
        (omega (arith, length-message c m (message_lines cs)))
    ∙ ap (parse_loop f (render cs ++ zeros (suc (suc k)))) (
        grown-grown s (d ∷ u) [] [] (line_of c m)
        ∙ ap (λ x. grown s x (line_of c m)) (append-nil (d ∷ u)))
    ∙ parse_loop-chunks cs [] f k (grown s (d ∷ u) (line_of c m)) tt nc.1 (omega arith)
        (omega (arith, length-message c m (message_lines cs)))
        (omega (arith, length-print c m (render cs)))
    ∙ result-grown s (d ∷ u) (plain_text cs) (line_of c m) (message_lines cs)
    ∙ ap (λ x. result s ((d ∷ u) ++ plain_text cs) x)
        (append_assoc (c ∷ m) (b'\n' ∷ []) (message_lines cs))

pub last_byte-zeros : (xs : Bytes) (k : ℕ) → last_byte (xs ++ zeros (suc k)) ≡ some 0
unfolding last_byte
last_byte-zeros [] zero = refl
last_byte-zeros [] (suc k) = last_byte-zeros [] k
last_byte-zeros (x ∷ []) k = last_byte-zeros [] k
last_byte-zeros (x ∷ y ∷ xs) k = last_byte-zeros (y ∷ xs) k

pub parse_zero_ended :
    (out : Bytes) (n m : ℕ)
    → last_byte out ≡ some 0
    → parse_command_output out n m ≡ parse_loop (suc (length out)) out (cleared n m)
unfolding parse_command_output
parse_zero_ended out n m e = ground arith

-- Text and failure messages of a test, in any order and with at least two zero bytes behind them,
-- are parsed with no read outside the output: the first buffer gets all text, the second all
-- messages, each with a newline. The condition is that they hold no NUL and fit the buffers.
pub parse-render :
    (cs : List Chunk) (k n m : ℕ)
    → NoNuls cs
    → length (plain_text cs) ≤ n
    → length (message_lines cs) ≤ m
    → parse_command_output (render cs ++ zeros (suc (suc k))) n m
      ≡ done (
          parsed (record {
            stdio = plain_text cs;
            stdio_left = n - length (plain_text cs);
            error = message_lines cs;
            error_left = m - length (message_lines cs);
          }))
parse-render cs k n m nn a b =
    let out : Bytes = render cs ++ zeros (suc (suc k)) in
    let size = length-append (render cs) (zeros (suc (suc k))) in
    parse_zero_ended out n m (last_byte-zeros (render cs) (suc k))
    ∙ parse_loop-chunks cs [] (suc (length out)) k (cleared n m) tt nn (omega arith) b
        (omega (arith, size))
