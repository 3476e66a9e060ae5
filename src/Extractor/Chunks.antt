-- ===== src/Extractor/Chunks.antt =====
-- Output that arrives in chunks, pkg/monetdroid/extractor.go: where it is cut makes no difference.
use mathlib.Core.List.{flatten}
use monetdroid.Prelude.{
  ◌≡⟨◌⟩◌, ◌∎, append-nil, ◌≡◌, refl, ap, sym, ◌∙◌, List, [], ◌∷◌, ◌++◌, append_assoc, Text,
  Bool-cases, inl, inr,
}
use monetdroid.Prelude.Split.{
  split, init, last_part, ends_with, init-split-append, last_part-split-append, last_part-split,
  init-last_part,
}
use monetdroid.Extractor.{
  GoTestExtractor, LineEvent, ran, paused, ended, packaged, nothing, classify, note_event,
  process_line, process_lines, ingest,
}

-- The empty line says nothing.
process_line_empty : (e : GoTestExtractor) → process_line e [] ≡ e
unfolding process_line classify
process_line_empty e = refl

process_lines-append :
    (e : GoTestExtractor) (xs ys : List Text)
    → process_lines e (xs ++ ys) ≡ process_lines (process_lines e xs) ys
unfolding process_lines
process_lines-append e [] ys = refl
process_lines-append e (x ∷ xs) ys = process_lines-append (process_line e x) xs ys

-- The extractor with another buffer and another unfinished line.
abbrev with_text : GoTestExtractor → Text → Text → GoTestExtractor
with_text e buf pending = record e { buf = buf; pending = pending }

note_event-with_text :
    (e : GoTestExtractor) (buf pending : Text) (v : LineEvent)
    → note_event (with_text e buf pending) v ≡ with_text (note_event e v) buf pending
unfolding note_event
note_event-with_text e buf pending ran = refl
note_event-with_text e buf pending paused = refl
note_event-with_text e buf pending (ended t) = refl
note_event-with_text e buf pending (packaged p) = refl
note_event-with_text e buf pending nothing = refl

-- Lines are read without regard to the buffer and the unfinished line.
process_lines-with_text :
    (e : GoTestExtractor) (buf pending : Text) (xs : List Text)
    → process_lines (with_text e buf pending) xs ≡ with_text (process_lines e xs) buf pending
unfolding process_lines process_line
process_lines-with_text e buf pending [] = refl
process_lines-with_text e buf pending (x ∷ xs) =
    ap (λ e'. process_lines e' xs) (note_event-with_text e buf pending (classify x))
    ∙ process_lines-with_text (note_event e (classify x)) buf pending xs

-- What a chunk does, whether or not it ends with a newline.
ingest_lem :
    (e : GoTestExtractor) (chunk : Text)
    → ingest e chunk
      ≡ with_text
          (process_lines e (init (split b'\n' (e.pending ++ chunk))))
          (e.buf ++ chunk)
          (last_part (split b'\n' (e.pending ++ chunk)))
unfolding ingest
ingest_lem e chunk = elim (Bool-cases (ends_with b'\n' chunk)) [
  | inl whole ↦
      let lines = split b'\n' (e.pending ++ chunk) in
      let empty = last_part-split b'\n' e.pending chunk whole in
      rw (whole, empty)
        (process_lines-with_text e (e.buf ++ chunk) [] lines
          ∙ ap (λ e'. with_text e' (e.buf ++ chunk) [])
              (ap (process_lines e) (sym (init-last_part b'\n' (e.pending ++ chunk)))
                ∙ process_lines-append e (init lines) (last_part lines ∷ [])
                ∙ last_line (process_lines e (init lines)) (last_part lines) empty))
  | inr open_end ↦ rw open_end (
      process_lines-with_text e (e.buf ++ chunk) (last_part (split b'\n' (e.pending ++ chunk)))
        (init (split b'\n' (e.pending ++ chunk))))
]
  where
    last_line : (e' : GoTestExtractor) (line : Text) → line ≡ [] → process_lines e' (line ∷ []) ≡ e'
    last_line e' line h = unfold process_lines in rw h (process_line_empty e')

-- Two chunks do what the one chunk does that they make up: the same tests, packages and counts, the
-- same text and the same unfinished line.
pub ingest-append : (e : GoTestExtractor) (c d : Text) → ingest (ingest e c) d ≡ ingest e (c ++ d)
ingest-append e c d =
    let text = e.pending ++ c in
    let lines = split b'\n' text in
    let tail = last_part lines ++ d in
    let middle = with_text (process_lines e (init lines)) (e.buf ++ c) (last_part lines) in
    ingest (ingest e c) d
    ≡⟨ ap (λ e'. ingest e' d) (ingest_lem e c) ⟩ ingest middle d
    ≡⟨ ingest_lem middle d ⟩
      with_text (process_lines middle (init (split b'\n' tail))) ((e.buf ++ c) ++ d)
        (last_part (split b'\n' tail))
    ≡⟨ ap (λ e'. with_text e' ((e.buf ++ c) ++ d) (last_part (split b'\n' tail)))
        (process_lines-with_text (process_lines e (init lines)) _ _ (init (split b'\n' tail))) ⟩
      with_text (process_lines (process_lines e (init lines)) (init (split b'\n' tail)))
        ((e.buf ++ c) ++ d) (last_part (split b'\n' tail))
    ≡⟨ (rw
        (
          ← append_assoc e.pending c d,
          init-split-append b'\n' text d,
          last_part-split-append b'\n' text d,
          process_lines-append e (init lines) (init (split b'\n' tail)),
          append_assoc e.buf c d,
        )
        refl) ⟩
      with_text (process_lines e (init (split b'\n' (e.pending ++ (c ++ d))))) (e.buf ++ (c ++ d))
        (last_part (split b'\n' (e.pending ++ (c ++ d))))
    ≡⟨ sym (ingest_lem e (c ++ d)) ⟩ ingest e (c ++ d) ∎

-- `Ingest` on each chunk in turn.
unfoldable pub ingest_all : GoTestExtractor → List Text → GoTestExtractor
ingest_all e [] = e
ingest_all e (c ∷ cs) = ingest_all (ingest e c) cs

-- However output is cut into chunks, after all of them the extractor is in the state to which the
-- whole output takes it in one chunk.
pub ingest_all-flatten :
    (e : GoTestExtractor) (c : Text) (cs : List Text)
    → ingest_all e (c ∷ cs) ≡ ingest e (c ++ flatten cs)
unfolding ingest_all flatten
ingest_all-flatten e c [] = rw append-nil refl
ingest_all-flatten e c (d ∷ cs) =
    ap (λ e'. ingest_all e' cs) (ingest-append e c d)
    ∙ ingest_all-flatten e (c ++ d) cs
    ∙ ap (ingest e) (append_assoc c d (flatten cs))
