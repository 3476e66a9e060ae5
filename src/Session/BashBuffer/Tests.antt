-- ===== src/Session/BashBuffer/Tests.antt =====
-- A run of the output buffer of pkg/monetdroid/session.go.
use monetdroid.Prelude.{
  ◌+◌, ◌≤◌, ◌≡◌, max, refl, List, [], ◌∷◌, ◌++◌, Text, codes, drop, length, arith,
}
use monetdroid.Session.BashBuffer.{
  BashStreamBuffer, new_bash_stream_buffer, max_bash_stream_lines, read, append_line,
}
use monetdroid.Session.BashBuffer.Replay.{append_lines, note_if, read-append_lines}

abbrev output : List Text
output = codes "a" ∷ codes "b" ∷ codes "c" ∷ []

abbrev buffer : BashStreamBuffer
buffer = append_lines new_bash_stream_buffer output

read_two : read buffer 1 ≡ (codes "b" ∷ codes "c" ∷ [], 3, buffer.done)
unfolding append_lines append_line new_bash_stream_buffer read
read_two = refl

read-append_lines_example :
    (read buffer 1 ≡ (
      note_if buffer.start_seq 1 ++ drop (max 1 buffer.start_seq) output,
      length output,
      buffer.done,
    ))
    × (length buffer.lines ≤ max_bash_stream_lines)
    × (buffer.start_seq + length buffer.lines ≡ length output)
read-append_lines_example = read-append_lines output 1 (omega arith) (omega arith)
