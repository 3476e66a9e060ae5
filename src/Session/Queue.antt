-- ===== src/Session/Queue.antt =====
-- The messages that wait in claude's command queue: `AddQueued`, `PeekQueued`, `TakeQueued`,
-- `RemoveQueued`, `ReconcileQueued` of pkg/monetdroid/session.go, and the lifecycle frames that
-- move them on, `handleCommandLifecycle` of pkg/monetdroid/hub.go.
pub mod Delivery
mod Tests
use monetdroid.Prelude.{
  Bool, true, false, if◌then◌else◌, Option, none, some, List, [], ◌∷◌, ◌++◌, Text, codes, same, any,
  find, keep, drop_first,
}
use monetdroid.Types.{ImageData, MsgType, ServerMsg, blank}
use monetdroid.Session.Chain.{Chain, advance_tip}

pub record QueueEntry : Type 0 where
  pub uuid : Text
  pub text : Text
  pub images : List ImageData

abbrev pub is_entry : Text → QueueEntry → Bool
is_entry uuid e = same e.uuid uuid

unfoldable pub add_queued : List QueueEntry → QueueEntry → List QueueEntry
add_queued q e = q ++ e ∷ []

unfoldable pub peek_queued : List QueueEntry → Text → Option QueueEntry
peek_queued q uuid = find (is_entry uuid) q

-- The loop: the first entry with the uuid, and the queue without it.
unfoldable pub take_queued : List QueueEntry → Text → List QueueEntry × Option QueueEntry
take_queued [] uuid = ([], none)
take_queued (e ∷ q) uuid =
    let (q', taken) = take_queued q uuid in if is_entry uuid e then (q, some e) else (e ∷ q', taken)

unfoldable pub remove_queued : List QueueEntry → Text → List QueueEntry
remove_queued q uuid = drop_first (is_entry uuid) q

-- `slices.Contains(stillQueued, e.UUID)` for each entry.
unfoldable pub reconcile_queued : List QueueEntry → List Text → List QueueEntry
reconcile_queued q still_queued = keep (λ e. any (same e.uuid) still_queued) q

-- The fields of a session that the lifecycle frames change.
pub record Pending : Type 0 where
  pub session_id : Text
  pub queue : List QueueEntry
  pub chain : Chain

-- What the hub does besides: a broadcast, or a new rendering of the queue bar.
pub data Effect : Type 0 where
  broadcast : ServerMsg → Effect
  push_queue_bar : Effect

-- The states of a `CommandLifecycleEvent`; `other` is any that the code has no case for.
pub data Lifecycle : Type 0 where
  started cancelled discarded refused other : Lifecycle

abbrev pub user_message_of : Text → QueueEntry → ServerMsg
user_message_of session_id e = record (blank MsgType.user_message) {
  session_id = session_id;
  text = e.text;
  images = e.images;
  uuid = e.uuid;
}

-- The `started` case, with what `TakeQueued` returned.
start_taken : Pending → List QueueEntry → Option QueueEntry → Pending × List Effect
start_taken s q none = (s, [])
start_taken s q (some e) = (
  record s { queue = q; chain = advance_tip s.chain e.uuid },
  broadcast (user_message_of s.session_id e)
      ∷ broadcast (record (blank MsgType.running) { session_id = s.session_id })
      ∷ push_queue_bar
      ∷ [],
)

abbrev drop_pending : Pending → Text → Pending × List Effect
drop_pending s uuid = (record s { queue = remove_queued s.queue uuid }, push_queue_bar ∷ [])

unfoldable pub handle_command_lifecycle : Pending → Lifecycle → Text → Pending × List Effect
unfolding start_taken
handle_command_lifecycle s started uuid =
    let (q, taken) = take_queued s.queue uuid in start_taken s q taken
handle_command_lifecycle s cancelled uuid = drop_pending s uuid
handle_command_lifecycle s discarded uuid = drop_pending s uuid
handle_command_lifecycle s refused uuid = drop_pending s uuid
handle_command_lifecycle s other uuid = (s, [])
