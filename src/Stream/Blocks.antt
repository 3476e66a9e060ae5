-- ===== src/Stream/Blocks.antt =====
-- The loops of handleStreamEvent over the blocks of a message, pkg/monetdroid/claude.go, with
-- handleBashToolUse, agentRunsInBackground, and SuppressTool and RemoveSuppressed of session.go.
use monetdroid.Prelude.{
  ◌+◌, Bool, false, not, ◌||◌, if◌then◌else◌, none, some, [], ◌∷◌, ◌++◌, Text, codes, same,
  is_empty,
}
use monetdroid.Prelude.Maps.{insert, delete, has}
use monetdroid.Types.{MsgType, ServerMsg, AgentStat, blank, is_suppressed_tool, is_boring_result}
use monetdroid.Session.Agents.{
  AgentTable, start_agent, finish_agent, mark_agent_background, get_agent_stat,
}
use monetdroid.Session.BashSlot.{store_outstanding_bash}
use monetdroid.Stream.Event.{
  BlockType, RawInput, StreamBlock, StreamSession, sends, signals, Done, does, content_string,
  no_images,
}

unfoldable pub suppress_tool : StreamSession → Text → Text → StreamSession
suppress_tool s id name = record s { suppressed = insert id name s.suppressed }

unfoldable pub remove_suppressed : StreamSession → Text → StreamSession × Bool
remove_suppressed s id =
    let ok = has id s.suppressed in
    (record s { suppressed = if ok then delete id s.suppressed else s.suppressed }, ok)

-- A nil pointer counts as false.
unfoldable pub agent_runs_in_background : RawInput → Bool
agent_runs_in_background input = elim input.run_in_background [ none ↦ false | some b ↦ b ]

abbrev starts_bash : StreamSession → Text → Text → Done
starts_bash s id cmd =
    does
      (record s {
        bash = store_outstanding_bash s.bash id cmd s.next_buffer;
        next_buffer = s.next_buffer + 1;
      })
      (signals s.bash_signal_path (s.id ++ b' ' ∷ id) ∷ [])

-- The wait of at most two seconds for an earlier stream is left out.
unfoldable pub handle_bash_tool_use : StreamSession → Text → RawInput → Done
unfolding is_empty agent_runs_in_background
handle_bash_tool_use s id input =
    if is_empty s.bash_signal_path then does s [] else elim input.command [
      | none ↦ does s []
      | some cmd ↦
          if is_empty cmd
          then does s []
          else if agent_runs_in_background input
          then does s []
          else starts_bash s id cmd
    ]

abbrev note_suppressed : StreamSession → StreamBlock → StreamSession
note_suppressed s b = if is_suppressed_tool b.name then suppress_tool s b.id b.name else s

abbrev asks_user : StreamBlock → Bool
asks_user b = same b.name (codes "AskUserQuestion")

-- A block of an assistant message of the sub-agent with the id.
unfoldable pub inner_assistant_block : Text → BlockType → StreamSession → StreamBlock → Done
unfolding suppress_tool same
inner_assistant_block pid BlockType.tool_use s b =
    let msg : ServerMsg = record (blank MsgType.tool_use) {
      session_id = s.id;
      tool = b.name;
      tool_use_id = b.id;
      input = b.raw_input.parsed;
      agent_id = pid;
    } in
    does (note_suppressed s b) (if asks_user b then [] else sends msg ∷ [])
inner_assistant_block pid _ s b = does s []

abbrev register : AgentTable → StreamBlock → AgentTable
register t b =
    let started = start_agent t b.id [] in
    if agent_runs_in_background b.raw_input then mark_agent_background started b.id else started

-- A tool_use of the main conversation, behind the note that its result is suppressed.
unfoldable pub parent_tool_use : Text → StreamSession → StreamBlock → Done
unfolding same handle_bash_tool_use
parent_tool_use uuid s b =
    let msg : ServerMsg = record (blank MsgType.tool_use) {
      session_id = s.id;
      tool = b.name;
      tool_use_id = b.id;
      cwd = s.cwd;
      input = b.raw_input.parsed;
      uuid = uuid;
    } in
    let bash =
      if same b.name (codes "Bash") then handle_bash_tool_use s b.id b.raw_input else does s [] in
    if asks_user b
    then does s []
    else if same b.name (codes "Agent")
    then does (record s { agents = register s.agents b }) []
    else does bash.session (sends msg ∷ bash.actions)

-- A block of an assistant message of the main conversation.
unfoldable pub parent_assistant_block : Text → BlockType → StreamSession → StreamBlock → Done
unfolding is_empty suppress_tool parent_tool_use
parent_assistant_block uuid BlockType.thinking s b =
    let msg : ServerMsg = record (blank MsgType.thinking) {
      session_id = s.id;
      text = b.thinking;
      uuid = uuid;
    } in
    does s (if is_empty b.thinking then [] else sends msg ∷ [])
parent_assistant_block uuid BlockType.text s b =
    let msg : ServerMsg = record (blank MsgType.text) {
      session_id = s.id;
      text = b.text;
      uuid = uuid;
    } in
    does s (if is_empty b.text then [] else sends msg ∷ [])
parent_assistant_block uuid BlockType.tool_use s b = parent_tool_use uuid (note_suppressed s b) b
parent_assistant_block uuid _ s b = does s []

-- A block of a user message of a sub-agent.
unfoldable pub inner_user_block : Text → BlockType → StreamSession → StreamBlock → Done
unfolding remove_suppressed content_string
inner_user_block pid BlockType.tool_result s b =
    let (s1, suppressed) = remove_suppressed s b.tool_use_id in
    let msg : ServerMsg = record (blank MsgType.tool_result) {
      session_id = s.id;
      tool_use_id = b.tool_use_id;
      agent_id = pid;
    } in
    let output = content_string b.content in
    let silent = suppressed || is_boring_result output in
    does s1 (
      if not (no_images b.content.images)
      then sends (record msg { images = b.content.images }) ∷ []
      else if silent
      then []
      else sends (record msg { output = output }) ∷ [])
inner_user_block pid _ s b = does s []

abbrev pub finished_msg : StreamSession → Text → Text → AgentStat → ServerMsg
finished_msg s id output stat = record (blank MsgType.subagent_finished) {
  session_id = s.id;
  agent_id = id;
  text = output;
  total_tokens = stat.total_tokens;
  total_tool_uses = stat.tool_uses;
  duration_ms = stat.duration_ms;
}

abbrev pub task_done_msg : StreamSession → Text → ServerMsg
task_done_msg s id = record (blank MsgType.task_done) { session_id = s.id; tool_use_id = id }

-- The result of a tool that is no agent; the spinner of the tool goes with it, so an empty one is
-- sent as well.
unfoldable pub plain_result : Text → StreamSession → Bool → StreamBlock → ServerMsg
unfolding content_string
plain_result uuid s suppressed b =
    let msg : ServerMsg = record (blank MsgType.tool_result) {
      session_id = s.id;
      tool_use_id = b.tool_use_id;
      uuid = uuid;
    } in
    let output = content_string b.content in
    if not (no_images b.content.images)
    then record msg { images = b.content.images }
    else if suppressed || is_boring_result output
    then msg
    else record msg { output = output }

-- A block of a user message of the main conversation.
unfoldable pub parent_user_block : Text → BlockType → StreamSession → StreamBlock → Done
unfolding remove_suppressed get_agent_stat content_string plain_result
parent_user_block uuid BlockType.tool_result s b =
    let (s1, suppressed) = remove_suppressed s b.tool_use_id in
    let id = b.tool_use_id in
    elim (get_agent_stat s.agents id) [
      | none ↦ does s1 (sends (plain_result uuid s suppressed b) ∷ [])
      | some stat ↦
          let finished : ServerMsg = record (finished_msg s id (content_string b.content) stat) {
            description = stat.description;
          } in
          if stat.background
          then does s1 []
          else does (record s1 { agents = finish_agent s1.agents id })
              (sends finished ∷ sends (task_done_msg s id) ∷ [])
    ]
parent_user_block uuid _ s b = does s []
