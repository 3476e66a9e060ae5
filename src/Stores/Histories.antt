-- ===== src/Stores/Histories.antt =====
-- Histories of the stores of pkg/monetdroid/session_tracker.go and models.go.
use monetdroid.Prelude.{
  ℕ, ◌≤◌, max, ◌≡◌, refl, ap, ◌∙◌, Bool, false, if◌then◌else◌, Option, none, some, List, [], ◌∷◌,
  Text, same, same_iff, same_refl, any, find, count, drop_first, arith, Bool-cases, inl, inr,
}
use monetdroid.Prelude.Maps.{lookup, lookup-insert}
use monetdroid.Stores.{
  TrackedSession, SessionTracker, is_session, replace_item, stamped, track, close_session,
  TextStore, get_or_set,
}

pub data TrackerOp : Type 0 where
  tracks : ℕ → TrackedSession → TrackerOp
  closes : Text → TrackerOp

unfoldable pub tracker_step : SessionTracker → TrackerOp → SessionTracker
unfolding track close_session
tracker_step st (tracks now item) = track now item st
tracker_step st (closes id) = close_session id st

unfoldable pub tracker_run : SessionTracker → List TrackerOp → SessionTracker
unfolding tracker_step
tracker_run st [] = st
tracker_run st (op ∷ ops) = tracker_run (tracker_step st op) ops

-- What is tracked under an id after an operation, by what the operation says.
abbrev pub tracked_after : Text → Option TrackedSession → TrackerOp → Option TrackedSession
tracked_after id before (tracks now item) =
    if same item.claude_id id then some (stamped now item) else before
tracked_after id before (closes j) = if same j id then none else before

abbrev pub tracked_after_all : Text → Option TrackedSession → List TrackerOp → Option TrackedSession
tracked_after_all id before [] = before
tracked_after_all id before (op ∷ ops) = tracked_after_all id (tracked_after id before op) ops

abbrev pub no_sessions : SessionTracker
no_sessions = record { items = []; saved = [] }

find-replace_item :
    (id : Text) (item : TrackedSession) (xs : List TrackedSession)
    → find (is_session id) (replace_item item xs)
      ≡ (if same item.claude_id id then some item else find (is_session id) xs)
unfolding replace_item
find-replace_item id item [] = ground arith
find-replace_item id item (x ∷ xs) = ground (
  arith,
  find-replace_item id item xs,
  same_iff x.claude_id id,
  same_iff item.claude_id id,
  same_iff x.claude_id item.claude_id,
)

count-replace_item :
    (id : Text) (item : TrackedSession) (xs : List TrackedSession)
    → count (is_session id) (replace_item item xs) ≡ (
        if same item.claude_id id
        then max 1 (count (is_session id) xs)
        else count (is_session id) xs)
unfolding replace_item
count-replace_item id item [] = ground arith
count-replace_item id item (x ∷ xs) = ground (
  arith,
  count-replace_item id item xs,
  same_iff x.claude_id id,
  same_iff item.claude_id id,
  same_iff x.claude_id item.claude_id,
)

find-none_of_count :
    (id : Text) (xs : List TrackedSession)
    → count (is_session id) xs ≡ 0
    → find (is_session id) xs ≡ none
find-none_of_count id [] h = refl
find-none_of_count id (x ∷ xs) h = ground (arith, find-none_of_count id xs)

find-drop_first :
    (id j : Text) (xs : List TrackedSession)
    → count (is_session id) xs ≤ 1
    → find (is_session id) (drop_first (is_session j) xs)
      ≡ (if same j id then none else find (is_session id) xs)
find-drop_first id j [] h = ground arith
find-drop_first id j (x ∷ xs) h = ground (
  arith,
  find-drop_first id j xs,
  find-none_of_count id xs,
  same_iff x.claude_id id,
  same_iff j id,
  same_iff x.claude_id j,
)

count-drop_first-le :
    (p q : TrackedSession → Bool) (xs : List TrackedSession)
    → count p (drop_first q xs) ≤ count p xs
count-drop_first-le p q [] = omega arith
count-drop_first-le p q (x ∷ xs) = ground (arith, count-drop_first-le p q xs)

close_none :
    (id j : Text) (xs : List TrackedSession)
    → any (is_session j) xs ≡ false
    → find (is_session id) xs ≡ (if same j id then none else find (is_session id) xs)
close_none id j [] h = ground arith
close_none id j (x ∷ xs) h =
    ground
      (arith, close_none id j xs, same_iff x.claude_id id, same_iff j id, same_iff x.claude_id j)

-- What holds of a tracker under one id.
abbrev Holds : Text → SessionTracker → Type 0
Holds id st = (count (is_session id) st.items ≤ 1) × (st.saved ≡ st.items)

tracker_step-Holds :
    (id : Text) (st : SessionTracker) (op : TrackerOp)
    → Holds id st
    → Holds id (tracker_step st op)
      × (find (is_session id) (tracker_step st op).items
          ≡ tracked_after id (find (is_session id) st.items) op)
unfolding tracker_step
tracker_step-Holds id st (tracks now item) h = (
  (ground (arith, h.0, count-replace_item id (stamped now item) st.items), refl),
  find-replace_item id (stamped now item) st.items,
)
tracker_step-Holds id st (closes j) h = elim (Bool-cases (any (is_session j) st.items)) [
  | inl there ↦ rw there (
    (omega (arith, h.0, count-drop_first-le (is_session id) (is_session j) st.items), refl),
    find-drop_first id j st.items h.0,
  )
  | inr gone ↦ rw gone (h, close_none id j st.items gone)
]

tracker_run-Holds :
    (id : Text) (st : SessionTracker) (ops : List TrackerOp)
    → Holds id st
    → Holds id (tracker_run st ops)
      × (find (is_session id) (tracker_run st ops).items
          ≡ tracked_after_all id (find (is_session id) st.items) ops)
unfolding tracker_run
tracker_run-Holds id st [] h = (h, refl)
tracker_run-Holds id st (op ∷ ops) h =
    let (h1, e1) = tracker_step-Holds id st op h in
    let (h2, e2) = tracker_run-Holds id (tracker_step st op) ops h1 in
    (h2, e2 ∙ ap (λ b. tracked_after_all id b ops) e1)

-- In every history of `Track` and `Close` from an empty tracker, an id has at most one item, which is
-- the one that was tracked last if it was not closed since, and the file holds the items.
tracker_run_lem :
    (id : Text) (ops : List TrackerOp)
    → (count (is_session id) (tracker_run no_sessions ops).items ≤ 1)
      × (find (is_session id) (tracker_run no_sessions ops).items ≡ tracked_after_all id none ops)
      × ((tracker_run no_sessions ops).saved ≡ (tracker_run no_sessions ops).items)
tracker_run_lem id ops =
    let (h, e) = tracker_run-Holds id no_sessions ops (omega arith, refl) in (h.0, e, h.1)

-- Calls of `GetOrSet`, one after another, with what they return.
unfoldable pub commands_run : TextStore → List (Text × Text) → TextStore × List Text
commands_run ms [] = (ms, [])
commands_run ms ((id, cmd) ∷ calls) =
    let (ms1, got) = get_or_set ms id cmd in
    let (ms2, later) = commands_run ms1 calls in (ms2, got ∷ later)

get_or_set_keeps :
    (ms : TextStore) (id cmd k c : Text)
    → lookup k ms.entries ≡ some c
    → lookup k (get_or_set ms id cmd).0.entries ≡ some c
unfolding get_or_set
get_or_set_keeps ms id cmd k c h = ground (arith, lookup-insert id k cmd ms.entries, same_iff id k)

commands_run_keeps :
    (ms : TextStore) (calls : List (Text × Text)) (k c : Text)
    → lookup k ms.entries ≡ some c
    → lookup k (commands_run ms calls).0.entries ≡ some c
unfolding commands_run
commands_run_keeps ms [] k c h = h
commands_run_keeps ms ((id, cmd) ∷ calls) k c h =
    commands_run_keeps (get_or_set ms id cmd).0 calls k c (get_or_set_keeps ms id cmd k c h)

get_or_set_records :
    (ms : TextStore) (id cmd : Text)
    → lookup id (get_or_set ms id cmd).0.entries ≡ some (get_or_set ms id cmd).1
unfolding get_or_set
get_or_set_records ms id cmd = ground (arith, lookup-insert id id cmd ms.entries, same_refl id)

get_or_set-recorded :
    (ms : TextStore) (id cmd c : Text)
    → lookup id ms.entries ≡ some c
    → (get_or_set ms id cmd).1 ≡ c
unfolding get_or_set
get_or_set-recorded ms id cmd c h = rw (h, get_or_set) refl

-- The first writer wins: the command that one call of `GetOrSet` returned for a session is what every
-- later call for it returns, whatever command it offers and whatever happened in between.
get_or_set_first :
    (ms : TextStore) (id cmd later : Text) (calls : List (Text × Text))
    → (get_or_set (commands_run (get_or_set ms id cmd).0 calls).0 id later).1
      ≡ (get_or_set ms id cmd).1
get_or_set_first ms id cmd later calls =
    get_or_set-recorded (commands_run (get_or_set ms id cmd).0 calls).0 id later
      (get_or_set ms id cmd).1
      (commands_run_keeps (get_or_set ms id cmd).0 calls id (get_or_set ms id cmd).1
        (get_or_set_records ms id cmd))
