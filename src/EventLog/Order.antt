-- ===== src/EventLog/Order.antt =====
-- The sequence numbers in the event log of pkg/monetdroid/hub.go.
use monetdroid.Prelude.{
  ℕ, ◌+◌, ◌%◌, ◌^◌, ◌≤◌, ◌<◌, ◌≡◌, Bool, not, List, [], ◌∷◌, ◌++◌, Text, is_empty, keep, any,
  Bool-cases, inl, inr, arith,
}
use monetdroid.EventLog.{SseEvent, EventLog, supersede, append, effective_key, has_key, has_parent}

-- The numbers of `es` ascend strictly, above `lo` and up to `hi`.
abbrev pub Ascends : ℕ → ℕ → List SseEvent → Type 0
Ascends lo hi [] = lo ≤ hi
Ascends lo hi (e ∷ es) = (lo < e.seq) × Ascends e.seq hi es

Ascends-weaken :
    (lo lo' hi : ℕ) (es : List SseEvent) → lo ≤ lo' → Ascends lo' hi es → Ascends lo hi es
Ascends-weaken lo lo' hi [] h a = omega arith
Ascends-weaken lo lo' hi (e ∷ es) h a = (omega arith, a.1)

Ascends-keep :
    (p : SseEvent → Bool) (lo hi : ℕ) (es : List SseEvent)
    → Ascends lo hi es
    → Ascends lo hi (keep p es)
Ascends-keep p lo hi [] a = a
Ascends-keep p lo hi (e ∷ es) a = elim (Bool-cases (p e)) [
  | inl kept ↦ rw kept (a.0, Ascends-keep p e.seq hi es a.1)
  | inr lost ↦ rw lost (Ascends-weaken lo e.seq hi _ (omega arith) (Ascends-keep p e.seq hi es a.1))
]

Ascends-append :
    (lo hi : ℕ) (es : List SseEvent) (e : SseEvent)
    → Ascends lo hi es
    → hi < e.seq
    → Ascends lo e.seq (es ++ e ∷ [])
Ascends-append lo hi [] e a h = (omega arith, omega arith)
Ascends-append lo hi (x ∷ es) e a h = (a.0, Ascends-append x.seq hi es e a.1 h)

Ascends-supersede :
    (key : Text) (lo hi : ℕ) (es : List SseEvent)
    → Ascends lo hi es
    → Ascends lo hi (supersede key es)
unfolding supersede
Ascends-supersede key lo hi es a = elim (Bool-cases (any (has_key key) es)) [
  | inl old ↦ rw old (
      Ascends-keep (λ e. not (has_parent key e)) lo hi _
        (Ascends-keep (λ e. not (has_key key e)) lo hi es a))
  | inr new ↦ rw new a
]

-- The numbers of a log's events ascend strictly from 1 to the log's counter.
abbrev pub IsOrdered : EventLog → Type 0
IsOrdered l = Ascends 0 l.seq l.events

pub append-IsOrdered :
    (l : EventLog) (event key parent : Text)
    → IsOrdered l
    → l.seq + 1 < 2 ^ 64
    → IsOrdered (append l event key parent).0
unfolding append
append-IsOrdered l event key parent o h =
    let fits : (l.seq + 1) % 2 ^ 64 ≡ l.seq + 1 = omega arith in
    elim (Bool-cases (is_empty (effective_key event key))) [
      | inl plain ↦ rw plain (Ascends-append 0 l.seq l.events _ o (omega arith))
      | inr keyed ↦
          rw keyed
            (Ascends-append 0 l.seq _ _ (Ascends-supersede _ 0 l.seq l.events o) (omega arith))
    ]
