-- ===== src/Session/Sending/Delivery.antt =====
-- From sending a message to showing it, pkg/monetdroid/hub.go.
use monetdroid.Prelude.{
  ◌≡◌, refl, ap, Bool, true, false, not, none, some, List, [], ◌∷◌, Text, same_refl, any, arith,
}
use monetdroid.Types.{ImageData, MsgType, blank}
use monetdroid.Session.Chain.{advance_tip}
use monetdroid.Session.Queue.{
  QueueEntry, is_entry, broadcast, push_queue_bar, started, user_message_of, take_queued,
  remove_queued, add_queued, handle_command_lifecycle,
}
use monetdroid.Session.Sending.{Sender, send_message}

-- No entry of the queue has the uuid, as the hub mints a new one.
abbrev pub is_fresh : Text → List QueueEntry → Bool
is_fresh uuid q = not (any (is_entry uuid) q)

take_queued-add_queued :
    (q : List QueueEntry) (e : QueueEntry)
    → is_fresh e.uuid q ≡ true
    → take_queued (add_queued q e) e.uuid ≡ (q, some e)
unfolding take_queued add_queued
take_queued-add_queued [] e h = rw (same_refl e.uuid) refl
take_queued-add_queued (d ∷ q) e h =
    let apart : is_entry e.uuid d ≡ false = ground arith in
    rw (apart, take_queued-add_queued q e (ground arith)) refl

remove_queued-add_queued :
    (q : List QueueEntry) (e : QueueEntry)
    → is_fresh e.uuid q ≡ true
    → remove_queued (add_queued q e) e.uuid ≡ q
unfolding remove_queued add_queued
remove_queued-add_queued [] e h = rw (same_refl e.uuid) refl
remove_queued-add_queued (d ∷ q) e h =
    let apart : is_entry e.uuid d ≡ false = ground arith in
    rw apart (ap (◌∷◌ d) (remove_queued-add_queued q e (ground arith)))

-- A message that the process refuses, and whose uuid no waiting message has, leaves the queue and
-- the chain as they were.
send_message-refused :
    (is_busy : Bool) (error uuid text : Text) (images : List ImageData) (s : Sender)
    → is_fresh uuid s.pending.queue ≡ true
    → (send_message true is_busy (some error) uuid text images s).0.pending ≡ s.pending
unfolding send_message
send_message-refused is_busy error uuid text images s fresh =
    rw
      (remove_queued-add_queued s.pending.queue
        (record { uuid = uuid; text = text; images = images }) fresh)
      refl

-- When the process has accepted a message, whose uuid no waiting message has, and then starts it,
-- the message is shown with the text, the images and the uuid it was sent with, the chain is
-- advanced to the uuid, and the queue is what it was before the sending.
pub send_message-started :
    (is_busy : Bool) (uuid text : Text) (images : List ImageData) (s : Sender)
    → is_fresh uuid s.pending.queue ≡ true
    → handle_command_lifecycle
        (send_message true is_busy none uuid text images s).0.pending
        started
        uuid
      ≡ (
        record s.pending { chain = advance_tip s.pending.chain uuid },
        broadcast (
              user_message_of s.pending.session_id
                (record { uuid = uuid; text = text; images = images }))
            ∷ broadcast (record (blank MsgType.running) { session_id = s.pending.session_id })
            ∷ push_queue_bar
            ∷ [],
      )
unfolding send_message handle_command_lifecycle
send_message-started is_busy uuid text images s fresh =
    rw
      (take_queued-add_queued s.pending.queue (record { uuid = uuid; text = text; images = images })
        fresh)
      refl
