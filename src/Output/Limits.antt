-- ===== src/Output/Limits.antt =====
-- What `parse_command_output` does with output that does not fit its buffers.
use pcut.Common.{
  ℕ, zero, suc, ◌-◌, ◌≤◌, ◌<◌, ◌≡◌, refl, sym, ap, ◌∙◌, [], ◌∷◌, ◌++◌, Bytes, done, length, arith,
  append-nil, append_assoc, length-append,
}
use pcut.Output.{
  Buffers, parsed, bad_read, parse_loop, parse_command_output, cleared, last_byte, contents,
  store_text, skip_zeros, text_at,
}
use pcut.Output.Parse.{NoNul, zeros, skip_zeros-text, str_size-append}
use pcut.Output.RoundTrip.{
  plain, parse-render, parse_zero_ended, last_byte-zeros, step_stdio, grown,
}

full_contents : (t : Bytes) (n : ℕ) → NoNul t → n ≡ 0 → NoNul (contents t n)
full_contents t n nn e = rw e (rw append-nil nn)

-- Standard output of exactly the buffer's size, with no NUL in it and at least two zero bytes
-- behind it, is accepted and fills the buffer, so that the C string which is reported has no
-- terminating NUL.
pub stdio_unterminated :
    (t : Bytes) (k n m : ℕ)
    → NoNul t
    → length t ≡ n
    → (r : Buffers) × (parse_command_output (t ++ zeros (suc (suc k))) n m ≡ done (parsed r))
      × (r.stdio ≡ t)
      × NoNul (contents r.stdio r.stdio_left)
stdio_unterminated t k n m nn e =
    let cs = plain t ∷ [] in
    let nil = append-nil t in
    let run = parse-render cs k n m (nn, tt) (rw nil (omega arith)) (omega arith) in
    (_, rw nil at run, refl, full_contents t (n - length t) nn (omega arith))

parse_loop-nil : (f : ℕ) (s : Buffers) → 0 < f → parse_loop f [] s ≡ done bad_read
unfolding parse_loop skip_zeros
parse_loop-nil zero s p = absurd (omega arith)
parse_loop-nil (suc f) s p = refl

-- Text without a NUL that fits the buffer and has only one zero byte behind it, the last of the
-- output, makes the parser read behind the output. The text is not empty.
pub one_zero_bad_read :
    (b : ℕ) (t : Bytes) (n m : ℕ)
    → NoNul (b ∷ t)
    → length (b ∷ t) ≤ n
    → parse_command_output (b ∷ (t ++ 0 ∷ [])) n m ≡ done bad_read
one_zero_bad_read b t n m nn fits =
    parse_zero_ended (b ∷ (t ++ 0 ∷ [])) n m (last_byte-zeros (b ∷ t) 0) ∙ two
  where
    two :
        parse_loop (suc (length (b ∷ (t ++ 0 ∷ [])))) (b ∷ (t ++ 0 ∷ [])) (cleared n m)
        ≡ done bad_read
    two =
        step_stdio (suc (length (t ++ 0 ∷ []))) 0 b t [] (cleared n m) nn (omega arith) fits
        ∙ parse_loop-nil (suc (length (t ++ 0 ∷ []))) (grown (cleared n m) (b ∷ t) [])
            (omega (arith, length-append t (0 ∷ [])))

parse_loop-refuse :
    (f b : ℕ) (t r : Bytes) (s : Buffers)
    → NoNul (b ∷ t)
    → s.stdio_left < length (b ∷ t)
    → parse_loop (suc f) (b ∷ (t ++ 0 ∷ r)) s ≡ done (parsed s)
unfolding parse_loop store_text
parse_loop-refuse f b t r s nn long =
    let scan : skip_zeros (b ∷ (t ++ 0 ∷ r)) 0 ≡ text_at 0 (b ∷ (t ++ 0 ∷ r)) =
      skip_zeros-text 0 0 b (t ++ 0 ∷ r) nn.0 in
    ground (arith, scan, str_size-append (b ∷ t) r nn)

-- Text without a NUL that stands at the start of the output and does not fit the buffer is
-- dropped, with all that follows it up to a last zero byte: both buffers stay empty.
pub long_text_dropped :
    (b : ℕ) (t r : Bytes) (n m : ℕ)
    → NoNul (b ∷ t)
    → n < length (b ∷ t)
    → parse_command_output (b ∷ (t ++ 0 ∷ (r ++ 0 ∷ []))) n m ≡ done (parsed (cleared n m))
long_text_dropped b t r n m nn long =
    parse_zero_ended (b ∷ (t ++ 0 ∷ (r ++ 0 ∷ []))) n m (
      ap last_byte (sym (append_assoc (b ∷ t) (0 ∷ r) (0 ∷ [])))
      ∙ last_byte-zeros ((b ∷ t) ++ 0 ∷ r) 0)
    ∙ parse_loop-refuse (suc (length (t ++ 0 ∷ (r ++ 0 ∷ [])))) b t (r ++ 0 ∷ []) (cleared n m) nn
        long
