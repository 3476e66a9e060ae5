-- ===== src/Session/Sending/Tests.antt =====
-- Runs of sending, pkg/monetdroid/hub.go.
use monetdroid.Prelude.{◌≡◌, refl, true, false, none, [], ◌∷◌, codes, same, is_empty}
use monetdroid.Types.{MsgType, blank}
use monetdroid.Session.Chain.{advance_tip}
use monetdroid.Session.Queue.{
  QueueEntry, broadcast, push_queue_bar, started, user_message_of, handle_command_lifecycle,
}
use monetdroid.Session.Sending.{Sender, try_auto_label, send_message}
use monetdroid.Session.Sending.Delivery.{send_message-started}

abbrev waiting : QueueEntry
waiting = record { uuid = codes "u"; text = codes "hi"; images = [] }

abbrev sender : Sender
sender = record {
  labels = record { label = []; auto_label = false };
  pending = record {
    session_id = codes "s";
    queue = waiting ∷ [];
    chain = record { tip = []; line_parents = [] };
  };
}

named_after_text :
    try_auto_label sender.labels (codes "fix it")
    ≡ record { label = codes "fix it"; auto_label = true }
unfolding try_auto_label is_empty
named_after_text = refl

send_message-started_example :
    handle_command_lifecycle
      (send_message true false none (codes "v") (codes "ho") [] sender).0.pending
      started
      (codes "v")
    ≡ (
      record sender.pending { chain = advance_tip sender.pending.chain (codes "v") },
      broadcast (
            user_message_of
              (codes "s")
              (record { uuid = codes "v"; text = codes "ho"; images = [] }))
          ∷ broadcast (record (blank MsgType.running) { session_id = codes "s" })
          ∷ push_queue_bar
          ∷ [],
    )
send_message-started_example =
    send_message-started false (codes "v") (codes "ho") [] sender (unfold same in refl)
