-- ===== src/History/Load.antt =====
-- loadSessionFromDisk of pkg/monetdroid/handlers.go: the log and the tree of lines of a session that
-- is loaded from its transcript.
use monetdroid.Prelude.{if◌then◌else◌, List, [], ◌∷◌, Text, is_empty, map}
use monetdroid.Types.{MsgType, ServerMsg, blank}
use monetdroid.Session.Chain.{Chain, init_tree}
use monetdroid.History.Transcript.{HistoryType, HistoryMessage, Transcript}

abbrev log_type : HistoryType → MsgType
log_type HistoryType.user = MsgType.user_message
log_type HistoryType.thinking = MsgType.thinking
log_type HistoryType.assistant = MsgType.text
log_type HistoryType.tool_use = MsgType.tool_use
log_type HistoryType.tool_result = MsgType.tool_result

-- The message of the log that a history message becomes. The fields that the code does not copy for
-- a type are empty in its messages.
unfoldable pub log_message : Text → HistoryMessage → ServerMsg
log_message id m = record (blank (log_type m.history_type)) {
  session_id = id;
  uuid = m.uuid;
  text = m.text;
  images = m.images;
  tool = m.tool;
  tool_use_id = m.tool_use_id;
  input = m.input;
  output = m.output;
}

-- `lastUUID`: the tip of the tree of lines.
unfoldable pub last_uuid : List HistoryMessage → Text → Text
unfolding is_empty
last_uuid [] u = u
last_uuid (m ∷ ms) u = last_uuid ms (if is_empty m.uuid then u else m.uuid)

unfoldable pub loaded_log : Text → Transcript → List ServerMsg
unfolding log_message
loaded_log id st = map (log_message id) st.msgs

unfoldable pub loaded_chain : Transcript → Chain
unfolding init_tree last_uuid
loaded_chain st = init_tree st.parents (last_uuid st.msgs [])
