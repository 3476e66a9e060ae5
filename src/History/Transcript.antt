-- ===== src/History/Transcript.antt =====
-- parseSessionMessages of pkg/monetdroid/history.go.
use monetdroid.Prelude.{
  ℕ, ltb, Bool, true, false, not, ◌&&◌, ◌||◌, if◌then◌else◌, Option, none, some, List, [], ◌∷◌,
  ◌++◌, Text, codes, same, is_empty, any,
}
use monetdroid.Prelude.Maps.{Map, insert, get_or}
use monetdroid.Types.{ImageData, ToolInput, CostInfo, is_boring_result, text_before}
use monetdroid.History.Entry.{
  in_messages, EntryType, ContentType, ContentBlock, JsonlEntry, block_string, context_after,
  decoded,
}

pub data HistoryType : Type 0 where
  user assistant thinking tool_use tool_result : HistoryType

pub record HistoryMessage : Type 0 where
  pub history_type : HistoryType
  pub text : Text
  pub images : List ImageData
  pub tool : Text
  pub tool_use_id : Text
  pub input : Option ToolInput
  pub output : Text
  pub uuid : Text

abbrev plain : HistoryType → Text → HistoryMessage
plain t s = record {
  history_type = t;
  text = s;
  images = [];
  tool = [];
  tool_use_id = [];
  input = none;
  output = [];
  uuid = [];
}

-- `sessionTranscript`, with the maps that the loop keeps; `usage` is the `SessionUsage`, which has
-- the fields of a `CostInfo`.
pub record Transcript : Type 0 where
  pub msgs : List HistoryMessage
  pub claude_id : Text
  pub cwd : Text
  pub branch_set : List Text
  pub usage : CostInfo
  pub parents : Map Text
  pub tool_names : Map Text

abbrev pub empty_transcript : Transcript
empty_transcript = record {
  msgs = [];
  claude_id = [];
  cwd = [];
  branch_set = [];
  usage = record { total_cost_usd = 0; context_used = 0; context_window = 0; model_name = [] };
  parents = [];
  tool_names = [];
}

abbrev pub add_branch : Text → List Text → List Text
add_branch b bs = if is_empty b then bs else if any (same b) bs then bs else b ∷ bs

-- What the loop over the blocks of a user entry collects.
pub record UserParts : Type 0 where
  pub user_text : Text
  pub user_images : List ImageData
  pub result_msgs : List HistoryMessage

abbrev image_of : Option ImageData → List ImageData
image_of none = []
image_of (some i) = if is_empty i.media_type || is_empty i.payload then [] else i ∷ []

abbrev pub no_images : List ImageData → Bool
no_images [] = true
no_images (_ ∷ _) = false

-- A result is kept when its output is empty, since the spinner of the tool goes with it.
abbrev pub result_message : Map Text → ContentBlock → HistoryMessage
result_message names b =
    let msg : HistoryMessage = record (plain HistoryType.tool_result []) {
      tool = get_or b.tool_use_id names [];
      tool_use_id = b.tool_use_id;
    } in
    let output = block_string b.content in
    if not (no_images b.content.images)
    then record msg { images = b.content.images }
    else record msg { output = if is_boring_result output then [] else output }

unfoldable pub user_block : Map Text → ContentType → ContentBlock → UserParts → UserParts
unfolding get_or block_string is_boring_result is_empty
user_block names ContentType.text b p =
    if is_empty b.text then p else record p { user_text = b.text }
user_block names ContentType.image b p = record p {
  user_images = p.user_images ++ image_of b.source;
}
user_block names ContentType.tool_result b p = record p {
  result_msgs = p.result_msgs ++ result_message names b ∷ [];
}
user_block names _ b p = p

unfoldable pub user_blocks : Map Text → List ContentBlock → UserParts → UserParts
unfolding user_block
user_blocks names [] p = p
user_blocks names (b ∷ bs) p = user_blocks names bs (user_block names b.content_type b p)

abbrev pub no_blocks : List ContentBlock → Bool
no_blocks [] = true
no_blocks (_ ∷ _) = false

abbrev pub typed : UserParts → List HistoryMessage
typed p =
    if not (is_empty p.user_text) || not (no_images p.user_images)
    then record (plain HistoryType.user p.user_text) { images = p.user_images } ∷ []
    else []

-- The messages of a user entry.
unfoldable pub user_msgs : Map Text → JsonlEntry → List HistoryMessage
unfolding user_blocks is_empty
user_msgs names e =
    let p =
      user_blocks names e.content.blocks
        (record { user_text = []; user_images = []; result_msgs = [] }) in
    if not (is_empty e.content.text) && no_blocks e.content.blocks
    then plain HistoryType.user e.content.text ∷ []
    else p.result_msgs ++ typed p

-- The messages of an assistant's block.
unfoldable pub assistant_msgs : ContentType → ContentBlock → List HistoryMessage
assistant_msgs ContentType.thinking b =
    if is_empty b.thinking then [] else plain HistoryType.thinking b.thinking ∷ []
assistant_msgs ContentType.text b =
    if is_empty b.text then [] else plain HistoryType.assistant b.text ∷ []
assistant_msgs ContentType.tool_use b =
    record (plain HistoryType.tool_use []) { tool = b.name; tool_use_id = b.id; input = b.parsed }
    ∷ []
assistant_msgs _ b = []

abbrev pub name_tool : ContentType → ContentBlock → Map Text → Map Text
name_tool ContentType.tool_use b names = if is_empty b.id then names else insert b.id b.name names
name_tool _ b names = names

-- The loop over the blocks of an assistant entry.
unfoldable pub assistant_blocks : List ContentBlock → Transcript → Transcript
unfolding assistant_msgs insert is_empty
assistant_blocks [] st = st
assistant_blocks (b ∷ bs) st = assistant_blocks bs (record st {
  msgs = st.msgs ++ assistant_msgs b.content_type b;
  tool_names = name_tool b.content_type b st.tool_names;
})

-- The name of the model after an entry that gives one.
unfoldable pub model_after : Text → Text → Text
unfolding is_empty same
model_after name known =
    if is_empty known && not (is_empty name) && not (same name (codes "synthetic"))
    then name
    else known

abbrev with_cost : ℕ → CostInfo → CostInfo
with_cost cost u = if ltb 0 cost then record u { total_cost_usd = cost } else u

-- The usage after a result with the cost and the use of models; the loop ends at its first entry.
abbrev pub result_usage : ℕ → List (Text × ℕ) → CostInfo → CostInfo
result_usage cost [] u = with_cost cost u
result_usage cost ((name, window) ∷ _) u = record (with_cost cost u) {
  model_name = model_after name u.model_name;
  context_window = if ltb 0 window then window else u.context_window;
}

abbrev later_id : Text → Text → Text
later_id new old = if is_empty new then old else new

-- The `switch` on the type of an entry.
unfoldable pub parse_typed : EntryType → JsonlEntry → Transcript → Transcript
unfolding user_msgs assistant_blocks model_after context_after is_empty
parse_typed EntryType.user e st = record st {
  claude_id = later_id e.session_id st.claude_id;
  msgs = st.msgs ++ user_msgs st.tool_names e;
}
parse_typed EntryType.assistant e st = assistant_blocks e.content.blocks (record st {
  usage = record st.usage {
    context_used = context_after e.usage st.usage.context_used;
    model_name = model_after e.model st.usage.model_name;
  };
})
parse_typed EntryType.result e st = record st {
  claude_id = later_id e.result_sid st.claude_id;
  usage = result_usage e.total_cost (e.model_usage in_messages) st.usage;
}
parse_typed EntryType.other_entry e st = st

-- The messages behind the first ones get the uuid of the entry.
unfoldable pub stamp_from : List HistoryMessage → Text → List HistoryMessage → List HistoryMessage
stamp_from [] uuid [] = []
stamp_from [] uuid (m ∷ ms) = record m { uuid = uuid } ∷ stamp_from [] uuid ms
stamp_from (_ ∷ old) uuid [] = []
stamp_from (_ ∷ old) uuid (m ∷ ms) = m ∷ stamp_from old uuid ms

-- The link of every line, also of one that yields no message.
unfoldable pub note_line_parent : JsonlEntry → Transcript → Transcript
unfolding insert is_empty
note_line_parent e st = record st {
  cwd = if is_empty st.cwd then e.cwd else st.cwd;
  branch_set = add_branch e.git_branch st.branch_set;
  parents = if is_empty e.uuid then st.parents else insert e.uuid e.parent_uuid st.parents;
}

unfoldable pub parse_entry : JsonlEntry → Transcript → Transcript
unfolding note_line_parent parse_typed stamp_from
parse_entry e st =
    let noted = note_line_parent e st in
    let parsed = parse_typed e.entry_type e noted in
    if e.is_sidechain
    then noted
    else record parsed { msgs = stamp_from noted.msgs e.uuid parsed.msgs }

unfoldable pub parse_entries : List JsonlEntry → Transcript → Transcript
unfolding parse_entry
parse_entries [] st = st
parse_entries (e ∷ es) st = parse_entries es (parse_entry e st)

-- `parseSessionMessages` of a file's lines; a read error comes with what was read before it.
unfoldable pub parse_session_messages : List (Option JsonlEntry) → Transcript
unfolding parse_entries
parse_session_messages lines = parse_entries (decoded lines) empty_transcript

-- `sort.Strings`.
abbrev place : Text → List Text → List Text
place b [] = b ∷ []
place b (c ∷ cs) = let later = c ∷ place b cs in if text_before b c then b ∷ c ∷ cs else later

unfoldable pub sorted_branches : List Text → List Text
unfolding text_before
sorted_branches [] = []
sorted_branches (b ∷ bs) = place b (sorted_branches bs)
