-- ===== src/Streaming/Feed.antt =====
-- What `Broadcast` of pkg/monetdroid/hub.go does to the session's log and its accumulators, and the
-- order in which it shows messages. The session exists; a message is shown by the session model.
use monetdroid.Prelude.{
  ◌≡◌, refl, ap, sym, ◌∙◌, Bool, true, false, ◌&&◌, if◌then◌else◌, List, [], ◌∷◌, ◌++◌, append-nil,
  append_assoc, Text, is_empty, is_empty_iff, any, arith, Bool-cases, inl, inr,
}
use monetdroid.Types.{MsgType, ServerMsg, blank}
use monetdroid.Streaming.{
  Accumulators, append_streaming_text, append_streaming_thinking, clear_streaming, drain_streaming,
}

pub record Feed : Type 0 where
  pub acc : Accumulators
  pub log : List ServerMsg
  pub shown : List ServerMsg

abbrev pub flushes : MsgType → Bool
flushes MsgType.text = true
flushes MsgType.thinking = true
flushes MsgType.tool_use = true
flushes MsgType.tool_result = true
flushes _ = false

-- `isStreamingFlushTrigger`.
abbrev pub is_streaming_flush_trigger : ServerMsg → Bool
is_streaming_flush_trigger msg = is_empty msg.agent_id && flushes msg.msg_type

abbrev message_of : MsgType → Text → Text → List ServerMsg
message_of t session_id s =
    if is_empty s then [] else record (blank t) { session_id = session_id; text = s } ∷ []

-- The messages that a flush writes: the text, then the thinking, those that are not empty.
abbrev pub flushed : Text → Accumulators → List ServerMsg
flushed session_id a =
    message_of MsgType.text session_id a.text ++ message_of MsgType.thinking session_id a.thinking

abbrev clears : MsgType → Bool
clears MsgType.text = true
clears MsgType.thinking = true
clears MsgType.running = true
clears _ = false

-- A message that is no delta: it is logged, then the accumulators are cleared or flushed, then it is
-- shown.
unfoldable pub feed_message : Text → ServerMsg → Feed → Feed
unfolding clear_streaming drain_streaming
feed_message session_id msg f =
    let acc = if clears msg.msg_type then clear_streaming f.acc else f.acc in
    let (drained, _, _) = drain_streaming acc in
    if is_streaming_flush_trigger msg
    then record {
      acc = drained;
      log = (f.log ++ msg ∷ []) ++ flushed session_id acc;
      shown = (f.shown ++ flushed session_id acc) ++ msg ∷ [];
    }
    else record { acc = acc; log = f.log ++ msg ∷ []; shown = f.shown ++ msg ∷ [] }

unfoldable pub broadcast_part : Text → MsgType → ServerMsg → Feed → Feed
unfolding feed_message append_streaming_text append_streaming_thinking
broadcast_part session_id MsgType.text_delta msg f = record f {
  acc = (append_streaming_text f.acc msg.text).0;
}
broadcast_part session_id MsgType.thinking_delta msg f = record f {
  acc = (append_streaming_thinking f.acc msg.text).0;
}
broadcast_part session_id _ msg f = feed_message session_id msg f

unfoldable pub feed_all : Text → List ServerMsg → Feed → Feed
unfolding broadcast_part
feed_all session_id [] f = f
feed_all session_id (msg ∷ msgs) f =
    feed_all session_id msgs (broadcast_part session_id msg.msg_type msg f)

-- The text of the answers in a list of messages, put together.
abbrev text_part : MsgType → Text → Text
text_part MsgType.text s = s
text_part _ s = []

abbrev pub answer_text : List ServerMsg → Text
answer_text [] = []
answer_text (m ∷ ms) = text_part m.msg_type m.text ++ answer_text ms

abbrev delta_part : MsgType → Text → Text
delta_part MsgType.text_delta s = s
delta_part _ s = []

abbrev pub delta_text : List ServerMsg → Text
delta_text [] = []
delta_text (m ∷ ms) = delta_part m.msg_type m.text ++ delta_text ms

answer_text-append : (a b : List ServerMsg) → answer_text (a ++ b) ≡ answer_text a ++ answer_text b
answer_text-append [] b = refl
answer_text-append (m ∷ a) b =
    ap (◌++◌ (text_part m.msg_type m.text)) (answer_text-append a b)
    ∙ sym (append_assoc (text_part m.msg_type m.text) (answer_text a) (answer_text b))

answer_text-flushed :
    (session_id : Text) (a : Accumulators) → answer_text (flushed session_id a) ≡ a.text
answer_text-flushed session_id a = ground (arith, append-nil a.text, is_empty_iff a.text)

-- The text that a session holds: what its log has, and what is still in the accumulator.
abbrev pub held_text : Feed → Text
held_text f = answer_text f.log ++ f.acc.text

quiet : (t : MsgType) (s : Text) → clears t ≡ false → text_part t s ≡ []
quiet MsgType.text s h = absurd (ground arith)
quiet _ s h = refl

logged :
    (log : List ServerMsg) (msg : ServerMsg)
    → clears msg.msg_type ≡ false
    → answer_text (log ++ msg ∷ []) ≡ answer_text log
logged log msg keeps =
    answer_text-append log (msg ∷ [])
    ∙ ap (λ t. answer_text log ++ (t ++ [])) (quiet msg.msg_type msg.text keeps)
    ∙ append-nil (answer_text log)

feed_message-held :
    (session_id : Text) (msg : ServerMsg) (f : Feed)
    → clears msg.msg_type ≡ false
    → held_text (feed_message session_id msg f) ≡ held_text f
unfolding feed_message
feed_message-held session_id msg f keeps = elim (Bool-cases (is_streaming_flush_trigger msg)) [
  | inl flush ↦
      rw (keeps, flush)
        (append-nil _
          ∙ answer_text-append (f.log ++ msg ∷ []) (flushed session_id f.acc)
          ∙ ap (λ t. t ++ answer_text (flushed session_id f.acc)) (logged f.log msg keeps)
          ∙ ap (◌++◌ (answer_text f.log)) (answer_text-flushed session_id f.acc))
  | inr plain ↦ rw (keeps, plain) (ap (λ t. t ++ f.acc.text) (logged f.log msg keeps))
]

broadcast_part-held :
    (session_id : Text) (t : MsgType) (msg : ServerMsg) (f : Feed)
    → msg.msg_type ≡ t
    → clears t ≡ false
    → held_text (broadcast_part session_id t msg f) ≡ held_text f ++ delta_part t msg.text
unfolding broadcast_part
broadcast_part-held session_id MsgType.text_delta msg f e keeps =
    sym (append_assoc (answer_text f.log) f.acc.text msg.text)
broadcast_part-held session_id MsgType.thinking_delta msg f e keeps = sym (append-nil (held_text f))
broadcast_part-held session_id _ msg f e keeps =
    feed_message-held session_id msg f (ap clears e ∙ keeps) ∙ sym (append-nil (held_text f))

-- While no complete text or thinking message arrives and no turn begins, no streamed text is lost and
-- none is doubled, however tool calls and their results flush it: the text in the log with the text
-- in the accumulator is what was there before with the text of the deltas behind it.
pub feed_all-held_text :
    (session_id : Text) (msgs : List ServerMsg) (f : Feed)
    → any (λ msg. clears msg.msg_type) msgs ≡ false
    → held_text (feed_all session_id msgs f) ≡ held_text f ++ delta_text msgs
unfolding feed_all
feed_all-held_text session_id [] f keeps = sym (append-nil (held_text f))
feed_all-held_text session_id (msg ∷ msgs) f keeps =
    feed_all-held_text session_id msgs (broadcast_part session_id msg.msg_type msg f) (ground arith)
    ∙ ap (λ t. t ++ delta_text msgs)
        (broadcast_part-held session_id msg.msg_type msg f refl (ground arith))
    ∙ append_assoc (held_text f) (delta_part msg.msg_type msg.text) (delta_text msgs)
