-- ===== src/Assert.antt =====
-- src/assert.c: the messages of failed assertions.
--
-- What `pcut_snprintf` and `vsnprintf` print is a parameter of the caller: the text of the place and the
-- formatted message; a print into a buffer of `size` bytes keeps `size - 1` bytes and a NUL.
pub mod Buffered
use pcut.Common.{
  ℕ, ◌+◌, ◌-◌, ◌%◌, Bool, List, ◌++◌, Bytes, codes, ltb, ◌==◌, if◌then◌else◌, length, take, decimal,
}

-- MAX_MESSAGE_LENGTH and MESSAGE_BUFFER_COUNT
abbrev pub max_message_length : ℕ
max_message_length = 256

abbrev pub message_buffer_count : ℕ
message_buffer_count = 2

-- The static variables: the strings in the buffers, by their index.
pub record Messages : Type 0 where
  pub message_buffer : ℕ → Bytes
  pub message_buffer_index : ℕ

-- `snprintf(dest, size, …)` for a text: the string that is left in `dest`.
abbrev pub snprintf : ℕ → Bytes → Bytes
snprintf size text = take (size - 1) text

-- The string that `pcut_failed_assertion_fmt` leaves in its buffer.
unfoldable pub format_message : Bytes → ℕ → Bytes → Bytes
unfolding decimal
format_message filename line formatted =
    let place =
      snprintf max_message_length (filename ++ (codes ":" ++ (decimal line ++ codes ": "))) in
    let offset = length place in
    if ltb (offset + 1) max_message_length
    then place ++ snprintf (max_message_length - offset) formatted
    else place

-- `pcut_failed_assertion_fmt` up to the call of `pcut_failed_assertion`: the index of the buffer that is
-- passed to it, and the new state.
unfoldable pub failed_assertion_fmt : Bytes → ℕ → Bytes → Messages → ℕ × Messages
unfolding format_message
failed_assertion_fmt filename line formatted s =
    let current = s.message_buffer_index in
    (
      current,
      record {
        message_buffer = λ i.
            if i == current then format_message filename line formatted else s.message_buffer i;
        message_buffer_index = (current + 1) % message_buffer_count;
      },
    )
