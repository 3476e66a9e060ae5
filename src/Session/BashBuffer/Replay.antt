-- ===== src/Session/BashBuffer/Replay.antt =====
-- The buffer against the whole output, pkg/monetdroid/session.go.
use monetdroid.Prelude.{
  ℕ, zero, suc, ◌+◌, ◌-◌, ◌/◌, ◌%◌, ◌^◌, ◌≤◌, ◌<◌, max, ltb, ltb→lt, ◌≡◌, refl, sym, ap, ◌∙◌, Bool,
  if◌then◌else◌, List, [], ◌∷◌, ◌++◌, append-nil, append_assoc, Text, length, length-append,
  length-drop, drop, arith, Bool-cases, inl, inr,
}
use monetdroid.Session.BashBuffer.{
  BashStreamBuffer, new_bash_stream_buffer, max_bash_stream_lines, append_line, truncation_note,
  read,
}

drop-append {ℓ} :
    {A : Type ℓ} (n : ℕ) (xs ys : List A) → n ≤ length xs → drop n (xs ++ ys) ≡ drop n xs ++ ys
drop-append zero xs ys h = refl
drop-append (suc n) [] ys h = absurd (omega arith)
drop-append (suc n) (x ∷ xs) ys h = drop-append n xs ys (omega arith)

drop-nil {ℓ} : {A : Type ℓ} (n : ℕ) → drop {A = A} n [] ≡ []
drop-nil zero = refl
drop-nil (suc n) = refl

drop-drop {ℓ} : {A : Type ℓ} (k n : ℕ) (xs : List A) → drop k (drop n xs) ≡ drop (n + k) xs
drop-drop k zero xs = ap (λ i. drop i xs) (omega arith)
drop-drop k (suc n) [] = drop-nil k ∙ sym (drop-nil (suc n + k))
drop-drop k (suc n) (x ∷ xs) =
    let e : suc n + k ≡ suc (n + k) = omega arith in rw e (drop-drop k n xs)

drop_all {ℓ} : {A : Type ℓ} (n : ℕ) (xs : List A) → length xs ≤ n → drop n xs ≡ []
drop_all n [] h = drop-nil n
drop_all zero (x ∷ xs) h = absurd (omega arith)
drop_all (suc n) (x ∷ xs) h = drop_all n xs (omega arith)

-- The buffer holds the end of the output, and not too much of it.
pub record Tracks (b : BashStreamBuffer) (output : List Text) : Type 0 where
  pub total : b.start_seq + length b.lines ≡ length output
  pub suffix : b.lines ≡ drop b.start_seq output
  pub bounded : length b.lines ≤ max_bash_stream_lines

pub new-Tracks : Tracks new_bash_stream_buffer []
unfolding new_bash_stream_buffer
new-Tracks = record { total = omega arith; suffix = refl; bounded = omega arith }

pub append_line-Tracks :
    (b : BashStreamBuffer) (output : List Text) (line : Text)
    → Tracks b output
    → length output + 1 < 2 ^ 63
    → Tracks (append_line b line) (output ++ line ∷ [])
unfolding append_line
append_line-Tracks b output line t small =
    let grown = b.lines ++ line ∷ [] in
    let n = length grown / 2 in
    let len : length grown ≡ length b.lines + 1 = length-append b.lines (line ∷ []) in
    let len' : length (output ++ line ∷ []) ≡ length output + 1 =
      length-append output (line ∷ []) in
    let whole : grown ≡ drop b.start_seq (output ++ line ∷ []) =
      ap (λ l. l ++ line ∷ []) t.suffix
      ∙ sym (drop-append b.start_seq output (line ∷ []) (omega (arith, t.total))) in
    let fits : (b.start_seq + n) % 2 ^ 64 ≡ b.start_seq + n = omega (arith, t.total, len) in
    elim (Bool-cases (ltb max_bash_stream_lines (length grown))) [
      | inl long ↦
          rw (long, fits)
            (record {
              total = omega (arith, t.total, len, len', length-drop n grown);
              suffix = ap (drop n) whole ∙ drop-drop n b.start_seq (output ++ line ∷ []);
              bounded = omega (arith, t.bounded, len, length-drop n grown);
            })
      | inr short ↦ rw short (record {
        total = omega (arith, t.total, len, len');
        suffix = whole;
        bounded = ground arith;
      })
    ]

-- The buffer after a whole output.
unfoldable pub append_lines : BashStreamBuffer → List Text → BashStreamBuffer
append_lines b [] = b
append_lines b (line ∷ lines) = append_lines (append_line b line) lines

append_lines-Tracks :
    (b : BashStreamBuffer) (output lines : List Text)
    → Tracks b output
    → length output + length lines < 2 ^ 63
    → Tracks (append_lines b lines) (output ++ lines)
unfolding append_lines
append_lines-Tracks b output [] t h = rw append-nil t
append_lines-Tracks b output (line ∷ lines) t h = rw (← append_assoc output (line ∷ []) lines) (
    append_lines-Tracks (append_line b line) (output ++ line ∷ []) lines
      (append_line-Tracks b output line t (omega arith))
      (omega (arith, length-append output (line ∷ []))))

abbrev pub note_if : ℕ → ℕ → List Text
note_if start seq = if ltb seq start then truncation_note (start - seq) ∷ [] else []

read_lem :
    (b : BashStreamBuffer) (output : List Text) (seq : ℕ)
    → Tracks b output
    → length output < 2 ^ 63
    → seq ≤ length output
    → read b seq
      ≡ (note_if b.start_seq seq ++ drop (max seq b.start_seq) output, length output, b.done)
unfolding read
read_lem b output seq t small h = elim (Bool-cases (ltb seq b.start_seq)) [
  | inl behind ↦ rw behind (
      finish (truncation_note (b.start_seq - seq) ∷ []) b.start_seq (omega arith)
        (omega (arith, t.total)) (omega (arith, ltb→lt seq b.start_seq behind)))
  | inr near ↦ rw near (finish [] seq (ground arith) h (ground arith))
]
  where
    finish :
        (note : List Text) (seq1 : ℕ)
        → b.start_seq ≤ seq1
        → seq1 ≤ length output
        → max seq b.start_seq ≡ seq1
        → ◌≡◌ {A = List Text × ℕ × Bool}
            (if ltb (seq1 - b.start_seq) (length b.lines)
              then (
                note ++ drop (seq1 - b.start_seq) b.lines,
                (b.start_seq + length b.lines) % 2 ^ 64,
                b.done,
              )
              else (note, seq1, b.done))
            (note ++ drop (max seq b.start_seq) output, length output, b.done)
    finish note seq1 above below from =
        let rest : drop (seq1 - b.start_seq) b.lines ≡ drop seq1 output =
          ap (drop (seq1 - b.start_seq)) t.suffix
          ∙ drop-drop (seq1 - b.start_seq) b.start_seq output
          ∙ ap (λ i. drop i output) (omega arith) in
        let total : (b.start_seq + length b.lines) % 2 ^ 64 ≡ length output =
          omega (arith, t.total) in
        elim (Bool-cases (ltb (seq1 - b.start_seq) (length b.lines))) [
          | inl some_left ↦ rw (some_left, from, rest, total) refl
          | inr none_left ↦
              let all : seq1 ≡ length output = ground (arith, t.total) in
              rw (none_left, from, drop_all seq1 output (omega arith), append-nil, all) refl
        ]

-- A reader that has seen the first `seq` lines of an output of fewer than 2^63 lines gets the
-- lines behind them, in order and to the last, and the length of the output as its next number.
-- Only lines that were dropped from the buffer are missing, they are the oldest, and a note in
-- front gives their exact number. The buffer never keeps more than its limit.
pub read-append_lines :
    (output : List Text) (seq : ℕ)
    → length output < 2 ^ 63
    → seq ≤ length output
    → let b = append_lines new_bash_stream_buffer output in
      (read b seq
        ≡ (note_if b.start_seq seq ++ drop (max seq b.start_seq) output, length output, b.done))
      × (length b.lines ≤ max_bash_stream_lines)
      × (b.start_seq + length b.lines ≡ length output)
read-append_lines output seq small h =
    let t = append_lines-Tracks new_bash_stream_buffer [] output new-Tracks (omega arith) in
    (read_lem _ output seq t small h, t.bounded, t.total)
