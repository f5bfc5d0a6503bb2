-- ===== src/Tests/Outputs.antt =====
-- Outputs of tests, and messages.
use pcut.Common.{◌-◌, ◌<◌, ◌≡◌, refl, true, some, List, [], ◌∷◌, ◌++◌, codes, done, arith, length}
use pcut.Output.{parsed, bad_read, parse_command_output, cleared, contents, print_fail_message}
use pcut.Output.Parse.{NoNul, zeros}
use pcut.Output.RoundTrip.{Chunk, failure, render, plain_text, message_lines, parse-render}
use pcut.Output.Limits.{stdio_unterminated, one_zero_bad_read, long_text_dropped}
use pcut.Output.Total.{parse_command_output-total}
use pcut.Report.Lines.{tagged, tap_print_by_lines, tap_print_by_lines-tagged}
use pcut.Assert.{Messages, format_message, failed_assertion_fmt}
use pcut.Assert.Buffered.{failed_assertion_fmt-both}

abbrev chunk_list : List Chunk
chunk_list = Chunk.plain (codes "hi") ∷ failure (codes "boom") ∷ Chunk.plain (codes "bye") ∷ []

parse-render_example :
    parse_command_output (render chunk_list ++ zeros 3) 8 8
    ≡ done (
        parsed (record {
          stdio = plain_text chunk_list;
          stdio_left = 8 - length (plain_text chunk_list);
          error = message_lines chunk_list;
          error_left = 8 - length (message_lines chunk_list);
        }))
parse-render_example =
    parse-render chunk_list 1 8 8
      ((refl, (refl, tt)), ((refl, (refl, (refl, (refl, tt)))), ((refl, (refl, (refl, tt))), tt)))
      (omega arith) (omega arith)

parse_command_output-total_example :
    (p : pcut.Output.Parsed) × (parse_command_output (codes "hi") 8 8 ≡ done p)
parse_command_output-total_example = parse_command_output-total (codes "hi") 8 8

stdio_unterminated_example :
    (r : pcut.Output.Buffers) × (parse_command_output (codes "hi" ++ zeros 2) 2 8 ≡ done (parsed r))
    × (r.stdio ≡ codes "hi")
    × NoNul (contents r.stdio r.stdio_left)
stdio_unterminated_example = stdio_unterminated (codes "hi") 0 2 8 (refl, (refl, tt)) refl

one_zero_bad_read_example : parse_command_output (codes "hi" ++ zeros 1) 8 8 ≡ done bad_read
one_zero_bad_read_example = one_zero_bad_read b'h' (codes "i") 8 8 (refl, (refl, tt)) (omega arith)

long_text_dropped_example :
    parse_command_output
      (codes "hi" ++ 0 ∷ (print_fail_message (some (codes "boom")) ++ 0 ∷ []))
      1
      8
    ≡ done (parsed (cleared 1 8))
long_text_dropped_example =
    long_text_dropped b'h' (codes "i") (print_fail_message (some (codes "boom"))) 1 8
      (refl, (refl, tt)) (omega arith)

tap_print_by_lines-tagged_example :
    tap_print_by_lines (some (codes "a\nb")) (codes "# ") ≡ tagged (codes "# ") true (codes "a\nb")
tap_print_by_lines-tagged_example = tap_print_by_lines-tagged (codes "# ") (codes "a\nb")

abbrev pub told_chunks : List Chunk
told_chunks = Chunk.plain (codes "hi") ∷ failure (codes "boom") ∷ []

abbrev messages_start : Messages
messages_start = record { message_buffer = λ i. []; message_buffer_index = 1 }

failed_assertion_fmt-both_example :
    (let first = failed_assertion_fmt (codes "a.c") 7 (codes "no") messages_start in
      let second = failed_assertion_fmt (codes "a.c") 9 (codes "bad") first.1 in
      (second.1.message_buffer first.0 ≡ format_message (codes "a.c") 7 (codes "no"))
      × (second.1.message_buffer second.0 ≡ format_message (codes "a.c") 9 (codes "bad"))
      × (second.1.message_buffer_index < 2))
failed_assertion_fmt-both_example =
    failed_assertion_fmt-both (codes "a.c") (codes "a.c") 7 9 (codes "no") (codes "bad")
      messages_start (omega arith)
