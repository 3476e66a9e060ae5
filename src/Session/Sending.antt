-- ===== src/Session/Sending.antt =====
-- Sending a message: `SendMessage` of pkg/monetdroid/hub.go with `TryAutoLabel` and `UpdateLabel` of
-- pkg/monetdroid/session.go. What the claude process answers, and whether there is one, are arguments.
pub mod Delivery
mod Tests
use monetdroid.Prelude.{
  ℕ, ltb, Bool, true, false, not, ◌&&◌, if◌then◌else◌, Option, none, some, List, [], ◌∷◌, ◌++◌,
  Text, codes, is_empty, length, take,
}
use monetdroid.Types.{ImageData, MsgType, ServerMsg, blank}
use monetdroid.Session.Queue.{
  QueueEntry, Pending, Effect, broadcast, push_queue_bar, add_queued, remove_queued,
}

pub record Labels : Type 0 where
  pub label : Text
  pub auto_label : Bool

-- Sixty bytes of the text at most.
unfoldable pub try_auto_label : Labels → Text → Labels
try_auto_label l text =
    if is_empty l.label && not (is_empty text)
    then record {
      label = if ltb 60 (length text) then take 60 text ++ codes "..." else text;
      auto_label = true;
    }
    else l

-- The label shown is the short path, which is computed elsewhere, if the label is empty.
unfoldable pub update_label : Labels → Text → Text → Labels × Text
update_label l short_path label =
    (record l { label = label }, if is_empty label then short_path else label)

pub record Sender : Type 0 where
  pub labels : Labels
  pub pending : Pending

-- The outcome of `proc.SendUserMessage`.
abbrev pub SendResult : Type 0
SendResult = Option Text

abbrev pub error_message : Text → Text → ServerMsg
error_message session_id e = record (blank MsgType.error) {
  session_id = session_id;
  error_text = e;
}

-- The `if` on the error.
after_send : Sender → Text → List Effect → SendResult → Sender × List Effect
after_send s uuid out none = (s, out)
after_send s uuid out (some e) = (
  record s { pending = record s.pending { queue = remove_queued s.pending.queue uuid } },
  out ++ push_queue_bar ∷ broadcast (error_message s.pending.session_id e) ∷ [],
)

-- `uuid` is the one that the call mints.
unfoldable pub send_message :
    Bool → Bool → SendResult → Text → Text → List ImageData → Sender → Sender × List Effect
unfolding after_send try_auto_label
send_message has_process is_busy result uuid text images s =
    let e : QueueEntry = record { uuid = uuid; text = text; images = images } in
    let s1 : Sender = record {
      labels = try_auto_label s.labels text;
      pending = record s.pending { queue = add_queued s.pending.queue e };
    } in
    let bar = if is_busy then push_queue_bar ∷ [] else [] in
    if has_process then after_send s1 uuid bar result else (s, [])
