-- ===== src/Session/Queue/Tests.antt =====
-- Runs of the message queue of pkg/monetdroid/session.go and hub.go.
use monetdroid.Prelude.{◌+◌, ◌≤◌, ◌≡◌, refl, count, List, [], ◌∷◌, Text, codes, same}
use monetdroid.Session.Queue.{
  QueueEntry, Pending, Lifecycle, is_entry, take_queued, handle_command_lifecycle, add_queued,
}
use monetdroid.Session.Queue.Delivery.{
  QueueOp, send, frame, reconcile, shows, sends, queue_run, queue_step, queue_run_delivers,
}

abbrev entry_of : Text → QueueEntry
entry_of uuid = record { uuid = uuid; text = codes "hi"; images = [] }

abbrev idle : Pending
idle = record {
  session_id = codes "s";
  queue = entry_of (codes "u") ∷ [];
  chain = record { tip = []; line_parents = [] };
}

-- `v` is sent, it starts twice, and `u` is reconciled away.
abbrev ops : List QueueOp
ops =
    send (entry_of (codes "v"))
    ∷ frame Lifecycle.started (codes "v")
    ∷ frame Lifecycle.started (codes "v")
    ∷ reconcile []
    ∷ []

shown_once : count (shows (codes "v")) (queue_run idle ops).1 ≡ 1
unfolding queue_run queue_step handle_command_lifecycle take_queued add_queued same
shown_once = refl

queue_run_delivers_example :
    count (is_entry (codes "v")) (queue_run idle ops).0.queue
      + count (shows (codes "v")) (queue_run idle ops).1
    ≤ count (is_entry (codes "v")) idle.queue + count (sends (codes "v")) ops
queue_run_delivers_example = queue_run_delivers (codes "v") idle ops

abbrev two : List QueueEntry
two = entry_of (codes "v") ∷ entry_of (codes "u") ∷ []
