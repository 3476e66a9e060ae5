-- ===== src/Streaming/Tests.antt =====
-- A run of the streamed deltas of pkg/monetdroid/hub.go.
use monetdroid.Prelude.{◌≡◌, refl, [], ◌∷◌, ◌++◌, Text, codes, same, arith}
use mathlib.Core.List.{flatten}
use monetdroid.EventLog.{empty_log, append, compact_key_of, effective_key, supersede}
use monetdroid.Streaming.{DeltaHtml, text_kind, Stream, broadcast_deltas}
use monetdroid.Streaming.Replay.{streamed, fragments, accumulated, broadcast_deltas-streamed}
use monetdroid.Types.{MsgType, ServerMsg, blank}
use monetdroid.Prelude.{is_empty}
use monetdroid.Streaming.Feed.{
  Feed, feed_message, feed_all, held_text, delta_text, feed_all-held_text,
}

abbrev html : DeltaHtml
html = record { container = λ d. codes "<div>" ++ d; fragment = λ a d. codes "+" }

no_key : (a d : Text) → compact_key_of (html.fragment a d) ≡ []
unfolding compact_key_of
no_key a d = refl

-- An answer was streamed before.
abbrev before : Stream
before = record {
  acc = record { text = []; thinking = [] };
  log =
      (append (append empty_log (codes "<div>old") (codes "streaming") []).0 (codes "+") []
        (codes "streaming")).0;
}

broadcast_deltas-streamed_example :
    (streamed (broadcast_deltas text_kind html before (codes "a" ∷ codes "b" ∷ [])).log
      ≡ html.container (codes "a") ∷ fragments html (codes "a") (codes "b" ∷ []))
    × (accumulated text_kind
          (broadcast_deltas text_kind html before (codes "a" ∷ codes "b" ∷ [])).acc
        ≡ codes "a" ++ flatten (codes "b" ∷ []))
broadcast_deltas-streamed_example =
    broadcast_deltas-streamed text_kind html no_key before (codes "a") (codes "b" ∷ []) refl
      (unfold append effective_key compact_key_of supersede same in refl) (ground arith)

abbrev some_feed : Feed
some_feed = record { acc = record { text = codes "hi"; thinking = [] }; log = []; shown = [] }

abbrev tool : ServerMsg
tool = record (blank MsgType.tool_use) { tool_use_id = codes "t" }

abbrev said : ServerMsg
said = record (blank MsgType.text) { session_id = codes "s"; text = codes "hi" }

-- The log has the tool_use first, the page the text.
orders_differ : feed_message (codes "s") tool some_feed ≡ record {
  acc = record { text = []; thinking = [] };
  log = tool ∷ said ∷ [];
  shown = said ∷ tool ∷ [];
}
unfolding feed_message is_empty
orders_differ = refl

abbrev delta : Text → ServerMsg
delta s = record (blank MsgType.text_delta) { text = s }

feed_all-held_text_example :
    held_text (feed_all (codes "s") (delta (codes "!") ∷ tool ∷ delta (codes "ho") ∷ []) some_feed)
    ≡ held_text some_feed ++ delta_text (delta (codes "!") ∷ tool ∷ delta (codes "ho") ∷ [])
feed_all-held_text_example =
    feed_all-held_text (codes "s") (delta (codes "!") ∷ tool ∷ delta (codes "ho") ∷ []) some_feed
      refl
