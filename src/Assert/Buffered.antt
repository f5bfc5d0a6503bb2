-- ===== src/Assert/Buffered.antt =====
-- The message buffers of src/assert.c.
use pcut.Common.{
  ℕ, ◌+◌, ◌-◌, ◌%◌, ◌≤◌, ◌<◌, ◌≡◌, refl, true, false, Bytes, codes, ◌++◌, arith, length, take,
  length-take, length-append, ◌==◌, ltb, decimal, Bool-cases, inl, inr,
}
use pcut.Assert.{Messages, format_message, failed_assertion_fmt, snprintf}

-- A message fits its buffer of 257 bytes with the NUL behind it: it is shorter than 256 bytes.
format_message-length :
    (filename : Bytes) (line : ℕ) (formatted : Bytes)
    → length (format_message filename line formatted) < 256
unfolding format_message
format_message-length filename line formatted =
    let text : Bytes = filename ++ (codes ":" ++ (decimal line ++ codes ": ")) in
    let place : Bytes = take 255 text in
    let size : length place ≤ 255 = omega (arith, length-take 255 text) in
    elim (Bool-cases (ltb (length place + 1) 256)) [
      | inl e ↦ rw e (
          omega (
            arith,
            size,
            length-append place (snprintf (256 - length place) formatted),
            length-take (256 - length place - 1) formatted,
          ))
      | inr e ↦ rw e (omega (arith, size))
    ]

-- A failed assertion in a test and one in its tear-down function use different buffers: behind the
-- second, both pointers that were passed on still lead to their own messages. The condition is
-- that the index of the buffer is in its range, which both calls keep.
pub failed_assertion_fmt-both :
    (file₁ file₂ : Bytes) (line₁ line₂ : ℕ) (text₁ text₂ : Bytes) (s : Messages)
    → s.message_buffer_index < 2
    → (let first = failed_assertion_fmt file₁ line₁ text₁ s in
        let second = failed_assertion_fmt file₂ line₂ text₂ first.1 in
        (second.1.message_buffer first.0 ≡ format_message file₁ line₁ text₁)
        × (second.1.message_buffer second.0 ≡ format_message file₂ line₂ text₂)
        × (second.1.message_buffer_index < 2))
unfolding failed_assertion_fmt
failed_assertion_fmt-both file₁ file₂ line₁ line₂ text₁ text₂ s l =
    let i = s.message_buffer_index in
    let other : (i == ((i + 1) % 2)) ≡ false = ground arith in
    let self : (i == i) ≡ true = ground arith in
    let self' : (((i + 1) % 2) == ((i + 1) % 2)) ≡ true = ground arith in
    (rw (other, self) refl, rw self' refl, omega arith)
