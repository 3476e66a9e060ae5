-- ===== src/EventLog.antt =====
-- pkg/monetdroid/hub.go: `EventLog`, the log of rendered events that a client replays, and
-- `compactKey`, which derives the key by which a newer event replaces an older one.
pub mod Order
pub mod Keys
pub mod History
mod Tests
use monetdroid.Prelude.{
  ℕ, ◌+◌, ◌%◌, ◌^◌, ◌≡◌, Bool, true, false, not, ◌||◌, ◌==◌, if◌then◌else◌, Option, none, some,
  List, [], ◌∷◌, ◌++◌, Text, codes, same, is_empty, index_of, contains, count_from, any, keep, take,
  drop,
}

pub record SseEvent : Type 0 where
  pub seq : ℕ
  pub event : Text
  pub compact_key : Text
  pub parent_key : Text

pub record EventLog : Type 0 where
  pub events : List SseEvent
  pub seq : ℕ  -- uint64

abbrev pub empty_log : EventLog
empty_log = record { events = []; seq = 0 }

-- What stands between the quotes of the first `id="…"`.
id_value : Text → Text
unfolding index_of
id_value event = elim (index_of (codes "id=\"") event) [
  | none ↦ []
  | some idx ↦
      let rest = drop (idx + 4) event in
      elim (index_of (codes "\"") rest) [ none ↦ [] | some end ↦ take end rest ]
]

unfoldable pub compact_key_of : Text → Text
unfolding id_value contains count_from
compact_key_of event =
    if not (count_from (codes "hx-swap-oob=") 0 event == 1)
    then []
    else if contains (codes "hx-swap-oob=\"innerHTML\"") event
        || contains (codes "hx-swap-oob=\"outerHTML\"") event
    then id_value event
    else []

abbrev pub has_key : Text → SseEvent → Bool
has_key key e = same e.compact_key key

abbrev pub has_parent : Text → SseEvent → Bool
has_parent key e = same e.parent_key key

-- The two deletions: the event that `key` names, and the events whose parent it was.
unfoldable pub supersede : Text → List SseEvent → List SseEvent
supersede key es =
    if any (has_key key) es
    then keep (λ e. not (has_parent key e)) (keep (λ e. not (has_key key e)) es)
    else es

-- The key under which an event is stored.
unfoldable pub effective_key : Text → Text → Text
unfolding is_empty
effective_key event key = if is_empty key then compact_key_of event else key

unfoldable pub append : EventLog → Text → Text → Text → EventLog × ℕ
unfolding is_empty
append l event key parent =
    let k = effective_key event key in
    let es = if is_empty k then l.events else supersede k l.events in
    let n = (l.seq + 1) % 2 ^ 64 in
    let e : SseEvent = record { seq = n; event = event; compact_key = k; parent_key = parent } in
    (record { events = es ++ e ∷ []; seq = n }, n)

unfoldable pub snapshot : EventLog → List SseEvent × ℕ
snapshot l = (l.events, l.seq)
