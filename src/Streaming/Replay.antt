-- ===== src/Streaming/Replay.antt =====
-- What a browser that connects late sees of an answer that is being written.
use mathlib.Core.List.{flatten}
use monetdroid.Prelude.{
  ◌≡◌, ◌≢◌, refl, sym, ap, ◌∙◌, Bool, true, false, not, ◌||◌, List, [], ◌∷◌, ◌++◌, append-nil,
  append_assoc, map, Text, same, is_empty, is_empty_iff, any, keep, keep-append, arith, Bool-cases,
  inl, inr,
}
use monetdroid.EventLog.{
  SseEvent, EventLog, append, compact_key_of, effective_key, supersede, has_key, has_parent,
}
use monetdroid.Streaming.{
  Accumulators, DeltaHtml, Kind, text_kind, thinking_kind, Stream, stream_name, append_delta,
  broadcast_delta, broadcast_deltas,
}

-- The events in the log that belong to the answer.
abbrev pub is_streamed : SseEvent → Bool
is_streamed e = has_key stream_name e || has_parent stream_name e

abbrev pub event_of : SseEvent → Text
event_of e = e.event

abbrev pub streamed : EventLog → List Text
streamed l = map event_of (keep is_streamed l.events)

-- No fragment stands in the log without a container.
abbrev pub has_no_orphan : EventLog → Bool
has_no_orphan l = any (has_key stream_name) l.events || not (any (has_parent stream_name) l.events)

keep_none {ℓ} :
    {A : Type ℓ} (p q : A → Bool) (xs : List A)
    → any p xs ≡ false
    → any q xs ≡ false
    → keep (λ x. p x || q x) xs ≡ []
keep_none p q [] h k = refl
keep_none p q (x ∷ xs) h k = ground (arith, keep_none p q xs)

keep-keep_neither {ℓ} :
    {A : Type ℓ} (p q : A → Bool) (xs : List A)
    → keep (λ x. p x || q x) (keep (λ x. not (q x)) (keep (λ x. not (p x)) xs)) ≡ []
keep-keep_neither p q [] = refl
keep-keep_neither p q (x ∷ xs) = ground (arith, keep-keep_neither p q xs)

map-append {ℓ} :
    {A B : Type ℓ} (f : A → B) (xs ys : List A) → map f (xs ++ ys) ≡ map f xs ++ map f ys
map-append f [] ys = refl
map-append f (x ∷ xs) ys = ap (◌∷◌ (f x)) (map-append f xs ys)

-- The container takes the place of the last answer.
streamed-supersede :
    (l : EventLog) → has_no_orphan l ≡ true → keep is_streamed (supersede stream_name l.events) ≡ []
unfolding supersede
streamed-supersede l h = elim (Bool-cases (any (has_key stream_name) l.events)) [
  | inl old ↦ rw old (keep-keep_neither (has_key stream_name) (has_parent stream_name) l.events)
  | inr new ↦
      rw new (keep_none (has_key stream_name) (has_parent stream_name) l.events new (ground arith))
]

streamed-container :
    (l : EventLog) (html : Text)
    → has_no_orphan l ≡ true
    → streamed (append l html stream_name []).0 ≡ html ∷ []
unfolding append effective_key same
streamed-container l html h =
    rw (keep-append is_streamed (supersede stream_name l.events), streamed-supersede l h) refl

streamed-fragment :
    (l : EventLog) (html : Text)
    → compact_key_of html ≡ []
    → streamed (append l html [] stream_name).0 ≡ streamed l ++ html ∷ []
unfolding append effective_key same
streamed-fragment l html h =
    rw (h, keep-append is_streamed l.events) (map-append event_of (keep is_streamed l.events) _)

abbrev pub accumulated : Kind → Accumulators → Text
accumulated text_kind a = a.text
accumulated thinking_kind a = a.thinking

append_delta_lem :
    (kind : Kind) (a : Accumulators) (d : Text)
    → (accumulated kind (append_delta kind a d).0 ≡ accumulated kind a ++ d)
      × ((append_delta kind a d).1 ≡ accumulated kind a ++ d)
      × ((append_delta kind a d).2 ≡ is_empty (accumulated kind a))
unfolding append_delta
append_delta_lem text_kind a d = (refl, refl, refl)
append_delta_lem thinking_kind a d = (refl, refl, refl)

is_empty-append : (a d : Text) → is_empty a ≡ false → is_empty (a ++ d) ≡ false
unfolding is_empty
is_empty-append [] d h = absurd (ground arith)
is_empty-append (c ∷ a) d h = refl

-- The fragments for the deltas behind a text.
abbrev pub fragments : DeltaHtml → Text → List Text → List Text
fragments html before [] = []
fragments html before (d ∷ ds) = html.fragment (before ++ d) d ∷ fragments html (before ++ d) ds

module _ (kind : Kind) (html : DeltaHtml)
    (plain : (a d : Text) → compact_key_of (html.fragment a d) ≡ []) where
  broadcast_delta-later :
      (s : Stream) (d : Text)
      → is_empty (accumulated kind s.acc) ≡ false
      → (streamed (broadcast_delta kind html s d).log
          ≡ streamed s.log ++ html.fragment (accumulated kind s.acc ++ d) d ∷ [])
        × (accumulated kind (broadcast_delta kind html s d).acc ≡ accumulated kind s.acc ++ d)
  unfolding broadcast_delta
  broadcast_delta-later s d going =
      let (acc, all, first) = append_delta_lem kind s.acc d in
      (
        rw (first, going, all)
            (streamed-fragment s.log (html.fragment (accumulated kind s.acc ++ d) d) (plain _ d)),
        acc,
      )

  broadcast_deltas-later :
      (s : Stream) (ds : List Text)
      → is_empty (accumulated kind s.acc) ≡ false
      → (streamed (broadcast_deltas kind html s ds).log
          ≡ streamed s.log ++ fragments html (accumulated kind s.acc) ds)
        × (accumulated kind (broadcast_deltas kind html s ds).acc
            ≡ accumulated kind s.acc ++ flatten ds)
  unfolding broadcast_deltas flatten
  broadcast_deltas-later s [] going = (sym (append-nil _), sym (append-nil _))
  broadcast_deltas-later s (d ∷ ds) going =
      let (step, acc) = broadcast_delta-later s d going in
      let full : is_empty (accumulated kind (broadcast_delta kind html s d).acc) ≡ false =
        rw acc (is_empty-append (accumulated kind s.acc) d going) in
      let (rest, all) = broadcast_deltas-later (broadcast_delta kind html s d) ds full in
      (
        rest
            ∙ ap
                (λ l. l ++ fragments html (accumulated kind (broadcast_delta kind html s d).acc) ds)
                step
            ∙ ap
                (λ a.
                  (streamed s.log ++ html.fragment (accumulated kind s.acc ++ d) d ∷ [])
                  ++ fragments html a ds)
                acc
            ∙ append_assoc (streamed s.log) (html.fragment (accumulated kind s.acc ++ d) d ∷ [])
                (fragments html (accumulated kind s.acc ++ d) ds),
        all ∙ ap (λ a. a ++ flatten ds) acc ∙ append_assoc (accumulated kind s.acc) d (flatten ds),
      )

  broadcast_delta-first :
      (s : Stream) (d : Text)
      → accumulated kind s.acc ≡ []
      → has_no_orphan s.log ≡ true
      → (streamed (broadcast_delta kind html s d).log ≡ html.container d ∷ [])
        × (accumulated kind (broadcast_delta kind html s d).acc ≡ d)
  unfolding broadcast_delta is_empty
  broadcast_delta-first s d new tidy =
      let (acc, all, first) = append_delta_lem kind s.acc d in
      (
        rw (first, new) (streamed-container s.log (html.container d) tidy),
        acc ∙ ap (λ a. a ++ d) new,
      )

  -- If the deltas of an answer arrive after the accumulator was cleared, the first one not empty, then
  -- the event log holds the container with the first delta and one fragment for each later delta, in
  -- order, and of earlier answers nothing; and the accumulator holds the deltas put together. This
  -- needs that a fragment's HTML has no compact key and that no fragment was in the log without a
  -- container.
  pub broadcast_deltas-streamed :
      (s : Stream) (d : Text) (ds : List Text)
      → accumulated kind s.acc ≡ []
      → has_no_orphan s.log ≡ true
      → d ≢ []
      → (streamed (broadcast_deltas kind html s (d ∷ ds)).log
          ≡ html.container d ∷ fragments html d ds)
        × (accumulated kind (broadcast_deltas kind html s (d ∷ ds)).acc ≡ d ++ flatten ds)
  unfolding broadcast_deltas
  broadcast_deltas-streamed s d ds new tidy some_text =
      let (first, acc) = broadcast_delta-first s d new tidy in
      let full : is_empty (accumulated kind (broadcast_delta kind html s d).acc) ≡ false =
        rw acc (ground (arith, is_empty_iff d)) in
      let (rest, all) = broadcast_deltas-later (broadcast_delta kind html s d) ds full in
      (
        rest
            ∙ ap
                (λ l. l ++ fragments html (accumulated kind (broadcast_delta kind html s d).acc) ds)
                first
            ∙ ap (λ a. html.container d ∷ fragments html a ds) acc,
        all ∙ ap (λ a. a ++ flatten ds) acc,
      )
