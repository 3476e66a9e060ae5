-- ===== src/Stream/Raw.antt =====
-- handleRawStreamEvent of pkg/monetdroid/claude.go: the deltas of an answer that is being written.
use monetdroid.Prelude.{Bool, Option, none, some, List, [], ◌∷◌, if◌then◌else◌, Text, is_empty}
use monetdroid.Types.{MsgType, ServerMsg, blank}

-- A delta, and its type and the type of its event as far as the code tests them.
pub data DeltaType : Type 0 where
  text_delta thinking_delta other_delta : DeltaType

pub record RawStreamEvent : Type 0 where
  pub parent_tool_use_id : Option Text
  pub is_content_block_delta : Bool
  pub delta_type : DeltaType
  pub text : Text
  pub thinking : Text

abbrev delta_msg : MsgType → Text → Text → List ServerMsg
delta_msg t id s = if is_empty s then [] else record (blank t) { session_id = id; text = s } ∷ []

abbrev of_delta : Text → RawStreamEvent → DeltaType → List ServerMsg
of_delta id raw DeltaType.text_delta = delta_msg MsgType.text_delta id raw.text
of_delta id raw DeltaType.thinking_delta = delta_msg MsgType.thinking_delta id raw.thinking
of_delta id raw DeltaType.other_delta = []

-- The messages that are sent for a raw event of the session with the id.
unfoldable pub handle_raw_stream_event : Text → RawStreamEvent → List ServerMsg
unfolding is_empty
handle_raw_stream_event id raw = elim raw.parent_tool_use_id [
  | some _ ↦ []
  | none ↦ if raw.is_content_block_delta then of_delta id raw raw.delta_type else []
]
