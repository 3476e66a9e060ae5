-- ===== src/Session/BashBuffer.antt =====
-- `BashStreamBuffer` of pkg/monetdroid/session.go: the bounded buffer of a foreground command's
-- output. A sequence number is an int64, as its 64 bits.
pub mod Replay
mod Tests
use monetdroid.Prelude.{
  ℕ, ◌+◌, ◌-◌, ◌/◌, ◌%◌, ◌^◌, ltb, Bool, true, false, if◌then◌else◌, List, [], ◌∷◌, ◌++◌, Text,
  codes, length, drop,
}
use monetdroid.Types.{itoa}

abbrev pub max_bash_stream_lines : ℕ
max_bash_stream_lines = 5000

pub record BashStreamBuffer : Type 0 where
  pub lines : List Text
  pub start_seq : ℕ
  pub done : Bool
  pub signal : Bool  -- the channel of capacity one holds a value

unfoldable pub new_bash_stream_buffer : BashStreamBuffer
new_bash_stream_buffer = record { lines = []; start_seq = 0; done = false; signal = false }

-- Drops the older half of a buffer that has grown too long.
unfoldable pub trim : BashStreamBuffer → BashStreamBuffer
trim b =
    let n = length b.lines / 2 in
    if ltb max_bash_stream_lines (length b.lines)
    then record b { start_seq = (b.start_seq + n) % 2 ^ 64; lines = drop n b.lines }
    else b

-- The send on the channel does not block: if a value is there already, it is skipped.
unfoldable pub append_line : BashStreamBuffer → Text → BashStreamBuffer
unfolding trim
append_line b line = record (trim (record b { lines = b.lines ++ line ∷ [] })) { signal = true }

unfoldable pub close_buffer : BashStreamBuffer → BashStreamBuffer
close_buffer b = record b { done = true; signal = true }

-- "… [%d lines truncated] …", the three points in UTF-8.
abbrev ellipsis : Text
ellipsis = 226 ∷ 128 ∷ 166 ∷ []

unfoldable pub truncation_note : ℕ → Text
unfolding itoa
truncation_note dropped =
    ellipsis ++ (codes " [" ++ (itoa dropped ++ (codes " lines truncated] " ++ ellipsis)))

-- The lines behind `seq`, the number for the next call, and whether the buffer is closed.
unfoldable pub read : BashStreamBuffer → ℕ → List Text × ℕ × Bool
read b seq =
    let behind = ltb seq b.start_seq in
    let note = if behind then truncation_note (b.start_seq - seq) ∷ [] else [] in
    let seq1 = if behind then b.start_seq else seq in
    let idx = seq1 - b.start_seq in
    if ltb idx (length b.lines)
    then (note ++ drop idx b.lines, (b.start_seq + length b.lines) % 2 ^ 64, b.done)
    else (note, seq1, b.done)
