-- ===== src/Streaming.antt =====
-- The deltas of an answer that is being written: the accumulators of pkg/monetdroid/session.go and
-- what `Broadcast` of pkg/monetdroid/hub.go sends for a delta.
pub mod Replay
pub mod Feed
mod Tests
use monetdroid.Prelude.{
  Bool, true, false, if◌then◌else◌, List, [], ◌∷◌, ◌++◌, Text, codes, is_empty,
}
use monetdroid.EventLog.{EventLog, append}

-- `StreamingText` and `StreamingThinking`.
pub record Accumulators : Type 0 where
  pub text : Text
  pub thinking : Text

unfoldable pub append_streaming_text : Accumulators → Text → Accumulators × Text × Bool
append_streaming_text a delta =
    (record a { text = a.text ++ delta }, a.text ++ delta, is_empty a.text)

unfoldable pub append_streaming_thinking : Accumulators → Text → Accumulators × Text × Bool
append_streaming_thinking a delta =
    (record a { thinking = a.thinking ++ delta }, a.thinking ++ delta, is_empty a.thinking)

unfoldable pub clear_streaming : Accumulators → Accumulators
clear_streaming a = record { text = []; thinking = [] }

unfoldable pub drain_streaming : Accumulators → Accumulators × Text × Text
drain_streaming a = (record { text = []; thinking = [] }, a.text, a.thinking)

-- The HTML of the events: the container with the first delta, and what is sent for a later delta,
-- given all text so far and the delta. They are made by functions that render HTML.
pub record DeltaHtml : Type 0 where
  pub container : Text → Text
  pub fragment : Text → Text → Text

pub data Kind : Type 0 where
  text_kind thinking_kind : Kind

-- The parts of a session that a delta changes.
pub record Stream : Type 0 where
  pub acc : Accumulators
  pub log : EventLog

abbrev pub stream_name : Text
stream_name = codes "streaming"

unfoldable pub append_delta : Kind → Accumulators → Text → Accumulators × Text × Bool
unfolding append_streaming_text append_streaming_thinking
append_delta text_kind a delta = append_streaming_text a delta
append_delta thinking_kind a delta = append_streaming_thinking a delta

-- The two cases of `Broadcast` for a delta.
unfoldable pub broadcast_delta : Kind → DeltaHtml → Stream → Text → Stream
broadcast_delta kind html s delta =
    let (acc, accumulated, first) = append_delta kind s.acc delta in
    let log =
      if first
      then (append s.log (html.container delta) stream_name []).0
      else (append s.log (html.fragment accumulated delta) [] stream_name).0 in
    record { acc = acc; log = log }

unfoldable pub broadcast_deltas : Kind → DeltaHtml → Stream → List Text → Stream
broadcast_deltas kind html s [] = s
broadcast_deltas kind html s (d ∷ ds) =
    broadcast_deltas kind html (broadcast_delta kind html s d) ds
