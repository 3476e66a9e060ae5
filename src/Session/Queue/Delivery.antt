-- ===== src/Session/Queue/Delivery.antt =====
-- Every message that is sent is shown at most once, in every history of the queue.
use monetdroid.Prelude.{
  ℕ, ◌+◌, ◌*◌, ◌≤◌, ◌≡◌, refl, ap, Bool, true, false, ◌&&◌, if◌then◌else◌, Option, none, some, List,
  [], ◌∷◌, ◌++◌, Text, same, same_iff, any, count, count-append, arith, Bool-cases, inl, inr,
}
use monetdroid.Types.{MsgType}
use monetdroid.Session.Queue.{
  QueueEntry, is_entry, add_queued, peek_queued, take_queued, remove_queued, reconcile_queued,
  Pending, Effect, broadcast, push_queue_bar, Lifecycle, started, cancelled, discarded, refused,
  other, handle_command_lifecycle, start_taken,
}

abbrev pub one_if : Bool → ℕ
one_if b = if b then 1 else 0

abbrev is_some {ℓ} : {A : Type ℓ} → Option A → Bool
is_some none = false
is_some (some _) = true

take_queued_counts :
    (q : List QueueEntry) (uuid k : Text)
    → count (is_entry k) (take_queued q uuid).0
        + one_if (same uuid k) * one_if (is_some (take_queued q uuid).1)
      ≡ count (is_entry k) q
unfolding take_queued
take_queued_counts [] uuid k = ground arith
take_queued_counts (e ∷ q) uuid k =
    ground
      (arith, take_queued_counts q uuid k, same_iff e.uuid uuid, same_iff e.uuid k, same_iff uuid k)

remove_queued_counts :
    (q : List QueueEntry) (uuid k : Text)
    → count (is_entry k) (remove_queued q uuid) ≤ count (is_entry k) q
unfolding remove_queued
remove_queued_counts [] uuid k = omega arith
remove_queued_counts (e ∷ q) uuid k = ground (arith, remove_queued_counts q uuid k)

reconcile_queued_counts :
    (q : List QueueEntry) (still : List Text) (k : Text)
    → count (is_entry k) (reconcile_queued q still)
      ≡ (if any (same k) still then count (is_entry k) q else 0)
unfolding reconcile_queued
reconcile_queued_counts [] still k = ground arith
reconcile_queued_counts (e ∷ q) still k = elim (Bool-cases (same e.uuid k)) [
  | inl here ↦ ground (
    arith,
    here,
    ap (λ u. any (same u) still) ((same_iff e.uuid k).0 here),
    reconcile_queued_counts q still k,
  )
  | inr there ↦ ground (arith, there, reconcile_queued_counts q still k)
]

-- What happens to a queue: a message is sent, its sending fails, a frame arrives, or an interrupt
-- reports what is still queued.
pub data QueueOp : Type 0 where
  send : QueueEntry → QueueOp
  send_failed : Text → QueueOp
  frame : Lifecycle → Text → QueueOp
  reconcile : List Text → QueueOp

unfoldable pub queue_step : Pending → QueueOp → Pending × List Effect
queue_step s (send e) = (record s { queue = add_queued s.queue e }, [])
queue_step s (send_failed uuid) =
    (record s { queue = remove_queued s.queue uuid }, push_queue_bar ∷ [])
queue_step s (frame state uuid) = handle_command_lifecycle s state uuid
queue_step s (reconcile still) = (record s { queue = reconcile_queued s.queue still }, [])

unfoldable pub queue_run : Pending → List QueueOp → Pending × List Effect
queue_run s [] = (s, [])
queue_run s (op ∷ ops) =
    let (s1, out) = queue_step s op in let (s2, later) = queue_run s1 ops in (s2, out ++ later)

abbrev is_user_message : MsgType → Bool
is_user_message MsgType.user_message = true
is_user_message _ = false

-- The effect shows the message with the uuid as a chat bubble.
abbrev pub shows : Text → Effect → Bool
shows k (broadcast m) = is_user_message m.msg_type && same m.uuid k
shows k push_queue_bar = false

abbrev pub sends : Text → QueueOp → Bool
sends k (send e) = same e.uuid k
sends k _ = false

-- What is queued after a step, and what the step showed, was queued before or sent.
Delivers : Text → Pending → QueueOp → Pending × List Effect → Type 0
Delivers k s op r =
    count (is_entry k) r.0.queue + count (shows k) r.1
    ≤ count (is_entry k) s.queue + one_if (sends k op)

start_taken_delivers :
    (k uuid : Text) (s : Pending) (q : List QueueEntry) (taken : Option QueueEntry)
    → count (is_entry k) q + one_if (same uuid k) * one_if (is_some taken)
      ≡ count (is_entry k) s.queue
    → ((e : QueueEntry) → taken ≡ some e → e.uuid ≡ uuid)
    → count (is_entry k) (start_taken s q taken).0.queue + count (shows k) (start_taken s q taken).1
      ≤ count (is_entry k) s.queue
unfolding start_taken
start_taken_delivers k uuid s q none h named = omega arith
start_taken_delivers k uuid s q (some e) h named = ground (arith, h, named e refl)

take_queued_named :
    (q : List QueueEntry) (uuid : Text) (e : QueueEntry)
    → (take_queued q uuid).1 ≡ some e
    → e.uuid ≡ uuid
unfolding take_queued
take_queued_named [] uuid e h = absurd (ground arith)
take_queued_named (d ∷ q) uuid e h =
    ground (arith, same_iff d.uuid uuid, take_queued_named q uuid e)

queue_step-Delivers : (k : Text) (s : Pending) (op : QueueOp) → Delivers k s op (queue_step s op)
unfolding Delivers queue_step handle_command_lifecycle add_queued
queue_step-Delivers k s (send e) = rw (count-append (is_entry k) s.queue (e ∷ [])) (ground arith)
queue_step-Delivers k s (send_failed uuid) = omega (arith, remove_queued_counts s.queue uuid k)
queue_step-Delivers k s (frame started uuid) = omega (
  arith,
  start_taken_delivers k uuid s (take_queued s.queue uuid).0 (take_queued s.queue uuid).1
      (take_queued_counts s.queue uuid k) (take_queued_named s.queue uuid),
)
queue_step-Delivers k s (frame cancelled uuid) = omega (arith, remove_queued_counts s.queue uuid k)
queue_step-Delivers k s (frame discarded uuid) = omega (arith, remove_queued_counts s.queue uuid k)
queue_step-Delivers k s (frame refused uuid) = omega (arith, remove_queued_counts s.queue uuid k)
queue_step-Delivers k s (frame other uuid) = omega arith
queue_step-Delivers k s (reconcile still) = ground (arith, reconcile_queued_counts s.queue still k)

-- In every history of sends, failures, frames and interrupts, the messages with a uuid that were
-- shown and those that still wait are together at most those that waited at first and those that
-- were sent: a message that is sent once, under a uuid that did not wait, is shown at most once,
-- and if it was shown it waits no more.
pub queue_run_delivers :
    (k : Text) (s : Pending) (ops : List QueueOp)
    → count (is_entry k) (queue_run s ops).0.queue + count (shows k) (queue_run s ops).1
      ≤ count (is_entry k) s.queue + count (sends k) ops
unfolding queue_run
queue_run_delivers k s [] = omega arith
queue_run_delivers k s (op ∷ ops) =
    let s1 = (queue_step s op).0 in
    let out = (queue_step s op).1 in
    let step : count (is_entry k) s1.queue + count (shows k) out
        ≤ count (is_entry k) s.queue + one_if (sends k op) =
      unfold Delivers in queue_step-Delivers k s op in
    rw (count-append (shows k) out (queue_run s1 ops).1)
      (ground (arith, step, queue_run_delivers k s1 ops))

-- `TakeQueued` returns what `PeekQueued` shows.
take-eq-peek : (q : List QueueEntry) (uuid : Text) → (take_queued q uuid).1 ≡ peek_queued q uuid
unfolding take_queued peek_queued
take-eq-peek [] uuid = refl
take-eq-peek (e ∷ q) uuid = ground (arith, take-eq-peek q uuid)

-- `TakeQueued` removes what `RemoveQueued` removes.
take-eq-remove : (q : List QueueEntry) (uuid : Text) → (take_queued q uuid).0 ≡ remove_queued q uuid
unfolding take_queued remove_queued
take-eq-remove [] uuid = refl
take-eq-remove (e ∷ q) uuid = ground (arith, take-eq-remove q uuid)

-- `TakeQueued` returns the entry that `PeekQueued` returns and leaves the queue that `RemoveQueued`
-- leaves.
take_queued_lem :
    (q : List QueueEntry) (uuid : Text)
    → ((take_queued q uuid).0 ≡ remove_queued q uuid)
      × ((take_queued q uuid).1 ≡ peek_queued q uuid)
take_queued_lem q uuid = (take-eq-remove q uuid, take-eq-peek q uuid)
