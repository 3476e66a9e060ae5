-- ===== src/Editing/Cancel.antt =====
-- Taking a queued message back, `handleCancelQueue` of pkg/monetdroid/handlers.go.
use monetdroid.Prelude.{
  ◌≡◌, Bool, false, not, ◌||◌, if◌then◌else◌, Option, none, some, List, Text, arith, is_empty,
}
use monetdroid.Session.Queue.{QueueEntry, peek_queued, remove_queued}
use monetdroid.Process.{answered, failed}
use monetdroid.Editing.{Claude}
use monetdroid.Editing.Queued.{is_confirmed}

-- What the browser gets: nothing, the bar of the queue, or a form with the text.
pub data CancelReply : Type 0 where
  no_content : CancelReply
  queue_bar : List QueueEntry → CancelReply
  queue_edit : Text → CancelReply

-- The queue after the request for an entry that waits.
unfoldable pub after_cancel : Claude → List QueueEntry → Text → List QueueEntry
unfolding remove_queued
after_cancel c q uuid = if not c.is_alive then remove_queued q uuid else elim (c.cancel uuid) [
  | failed _ ↦ q
  | answered cancelled ↦ if cancelled then remove_queued q uuid else q
]

-- The queue, the reply, and the queue bar that all browsers of the session are sent.
unfoldable pub handle_cancel_queue :
    Claude
    → List QueueEntry
    → Text
    → Bool
    → List QueueEntry × CancelReply × Option (List QueueEntry)
unfolding is_empty peek_queued after_cancel
handle_cancel_queue c q uuid edit =
    if is_empty uuid then (q, no_content, none) else elim (peek_queued q uuid) [
      | none ↦ (q, queue_bar q, none)
      | some entry ↦
          let entries = after_cancel c q uuid in
          (entries, (if edit then queue_edit entry.text else queue_bar entries), some entries)
    ]

after_cancel-kept :
    (c : Claude) (q : List QueueEntry) (uuid : Text)
    → (not c.is_alive || is_confirmed (c.cancel uuid)) ≡ false
    → after_cancel c q uuid ≡ q
unfolding after_cancel
after_cancel-kept c q uuid h = ground arith

-- While the claude process runs, a request to cancel a message leaves the queue as it is unless the
-- process confirms that the message is cancelled.
handle_cancel_queue_kept :
    (c : Claude) (q : List QueueEntry) (uuid : Text) (edit : Bool)
    → (not c.is_alive || is_confirmed (c.cancel uuid)) ≡ false
    → (handle_cancel_queue c q uuid edit).0 ≡ q
unfolding handle_cancel_queue
handle_cancel_queue_kept c q uuid edit h = ground (arith, after_cancel-kept c q uuid h)
