-- ===== src/Output/Parse.antt =====
-- One round of the parser on each kind of input.
use pcut.Common.{
  ℕ, zero, suc, ◌+◌, ◌-◌, ◌≤◌, ◌<◌, ◌≡◌, refl, ap, ◌∙◌, false, none, some, [], ◌∷◌, ◌++◌, Bytes,
  ◌==◌, done, length, take, drop, replicate, arith,
}
use pcut.Output.{Buffers, parsed, text_at, ended, skip_zeros, str_size, store_text, parse_loop}

-- No byte is NUL.
abbrev pub NoNul : Bytes → Type 0
NoNul [] = Unit {0}
NoNul (b ∷ bs) = ((b == 0) ≡ false) × NoNul bs

pub str_size-append : (t r : Bytes) → NoNul t → str_size (t ++ 0 ∷ r) ≡ some (length t)
unfolding str_size
str_size-append [] r n = refl
str_size-append (b ∷ t) r n = rw (n.0, str_size-append t r n.1) (ap some (omega arith))

pub str_size-none : (t : Bytes) → NoNul t → str_size t ≡ none
unfolding str_size
str_size-none [] n = refl
str_size-none (b ∷ t) n = rw (n.0, str_size-none t n.1)

pub take-length : (t r : Bytes) → take (length t) (t ++ r) ≡ t
take-length [] r = refl
take-length (b ∷ t) r = rw (take-length t r)

pub drop-length : (t r : Bytes) → drop (length t + 1) (t ++ 0 ∷ r) ≡ r
drop-length [] r = refl
drop-length (b ∷ t) r =
    let e : suc (length t) + 1 ≡ suc (length t + 1) = omega arith in rw e (drop-length t r)

abbrev pub zeros : ℕ → Bytes
zeros n = replicate n 0

pub skip_zeros-text :
    (n k : ℕ) (b : ℕ) (r : Bytes)
    → (b == 0) ≡ false
    → skip_zeros (zeros n ++ b ∷ r) k ≡ text_at (k + n) (b ∷ r)
unfolding skip_zeros
skip_zeros-text zero k b [] e = rw e (ap (λ n. text_at n (b ∷ [])) (omega arith))
skip_zeros-text zero k b (c ∷ r) e = rw e (ap (λ n. text_at n (b ∷ c ∷ r)) (omega arith))
skip_zeros-text (suc zero) k b r e =
    skip_zeros-text zero (k + 1) b r e ∙ ap (λ m. text_at m (b ∷ r)) (omega arith)
skip_zeros-text (suc (suc n)) k b r e =
    skip_zeros-text (suc n) (k + 1) b r e ∙ ap (λ m. text_at m (b ∷ r)) (omega arith)

pub skip_zeros-end : (n k : ℕ) → skip_zeros (zeros (suc n)) k ≡ ended
unfolding skip_zeros
skip_zeros-end zero k = refl
skip_zeros-end (suc n) k = skip_zeros-end n (k + 1)

-- A text after `n` zeros, closed by a NUL, is copied and passed over.
pub parse_loop-text :
    (f n : ℕ) (b : ℕ) (t r : Bytes) (s : Buffers) {s' : Buffers}
    → NoNul (b ∷ t)
    → store_text n (b ∷ (t ++ 0 ∷ r)) (length (b ∷ t)) s ≡ some s'
    → parse_loop (suc f) (zeros n ++ b ∷ (t ++ 0 ∷ r)) s ≡ parse_loop f r s'
unfolding parse_loop
parse_loop-text f n b t r s nn st =
    let e : 0 + n ≡ n = omega arith in
    let scan = rw e at (skip_zeros-text n 0 b (t ++ 0 ∷ r) nn.0) in
    ground (arith, scan, str_size-append (b ∷ t) r nn, st, drop-length (b ∷ t) r)

-- The end of the output is reached in its zeros.
pub parse_loop-end :
    (f n : ℕ) (s : Buffers) → parse_loop (suc f) (zeros (suc n)) s ≡ done (parsed s)
unfolding parse_loop
parse_loop-end f n s = rw (skip_zeros-end n 0)

-- A text after fewer than two zeros goes to the standard output of the test ...
pub parse_loop-stdio :
    (f n : ℕ) (b : ℕ) (t r : Bytes) (s : Buffers)
    → NoNul (b ∷ t)
    → n < 2
    → length (b ∷ t) ≤ s.stdio_left
    → parse_loop (suc f) (zeros n ++ b ∷ (t ++ 0 ∷ r)) s
      ≡ parse_loop f r
          (record s { stdio = s.stdio ++ b ∷ t; stdio_left = s.stdio_left - length (b ∷ t) })
unfolding store_text
parse_loop-stdio f n b t r s nn few fits =
    parse_loop-text f n b t r s nn (ground (arith, take-length (b ∷ t) (0 ∷ r)))

-- ... and one after two or more to the error messages.
pub parse_loop-error :
    (f n : ℕ) (b : ℕ) (t r : Bytes) (s : Buffers)
    → NoNul (b ∷ t)
    → 2 ≤ n
    → length (b ∷ t) ≤ s.error_left
    → parse_loop (suc f) (zeros n ++ b ∷ (t ++ 0 ∷ r)) s
      ≡ parse_loop f r
          (record s { error = s.error ++ b ∷ t; error_left = s.error_left - length (b ∷ t) })
unfolding store_text
parse_loop-error f n b t r s nn many fits =
    parse_loop-text f n b t r s nn (ground (arith, take-length (b ∷ t) (0 ∷ r)))
