-- ===== src/Stream.antt =====
-- pkg/monetdroid/claude.go: handleStreamEvent, what a session does with a message of the CLI. A
-- handler gives the session after it and its broadcasts and other effects in their order.
pub mod Event
pub mod Notification
pub mod Blocks
pub mod System
pub mod Raw
pub mod Moves
pub mod Agents
pub mod Sections
pub mod Lines
pub mod Tip
pub mod Inner
pub mod Answers
pub mod Still
pub mod Turns
mod Tests
use monetdroid.Prelude.{
  ℕ, ◌==◌, ltb, Bool, true, false, not, ◌&&◌, ◌||◌, if◌then◌else◌, Option, none, some, List, [],
  ◌∷◌, ◌++◌, Text, codes, same, is_empty,
}
use monetdroid.Prelude.Maps.{Map, lookup, delete}
use monetdroid.Types.{is_positive, MsgType, ServerMsg, CostInfo, AgentStat, blank, text_before}
use monetdroid.Session.Agents.{
  AgentTable, start_agent, finish_agent, update_agent_stat, get_agent_stat,
}
use monetdroid.Session.Chain.{advance_tip}
use Event.{
  EventType, Subtype, StreamBlock, StreamUsage, StreamEvent, StreamSession, Action, sends, closes,
  refreshes, Done, does, and_then, parent_id, context_of, each_block,
}
use Blocks.{
  inner_assistant_block, parent_assistant_block, inner_user_block, parent_user_block, finished_msg,
  task_done_msg,
}
use Notification.{notifications}
use System.{close_bg_stop, with_agents, started_msg, on_system}

unfoldable pub is_known : StreamSession → Text → Bool
unfolding get_agent_stat
is_known s id = elim (get_agent_stat s.agents id) [ none ↦ false | some _ ↦ true ]

-- A message of a sub-agent that was not announced: a forked skill.
unfoldable pub announce_skill : Text → StreamSession → StreamEvent → Done
unfolding is_known
announce_skill pid s e =
    if is_known s pid
    then does s []
    else does (with_agents s (start_agent s.agents pid e.task_description))
        (sends (started_msg s pid e.subagent_type e.task_description) ∷ [])

unfoldable pub inner_assistant : Text → StreamSession → StreamEvent → Done
unfolding announce_skill each_block inner_assistant_block
inner_assistant pid s e =
    and_then (announce_skill pid s e)
      (λ s'. each_block (λ t b. inner_assistant_block pid b.block_type t b) s' e.blocks)

abbrev context_cost : ℕ → CostInfo
context_cost used = record {
  total_cost_usd = 0;
  context_used = used;
  context_window = 0;
  model_name = [];
}

abbrev cost_msg : StreamSession → CostInfo → ServerMsg
cost_msg s c = record (blank MsgType.cost) { session_id = s.id; cost = some c }

unfoldable pub note_usage : Option StreamUsage → StreamSession → Done
unfolding context_of
note_usage none s = does s []
note_usage (some u) s =
    let used = context_of u in
    if is_positive used
    then does (record s { stream_context = true }) (sends (cost_msg s (context_cost used)) ∷ [])
    else does s []

unfoldable pub parent_assistant : Text → StreamSession → StreamEvent → Done
unfolding each_block parent_assistant_block note_usage
parent_assistant uuid s e =
    and_then (each_block (λ t b. parent_assistant_block uuid b.block_type t b) s e.blocks)
      (note_usage e.message_usage)

-- The entry with the least key: `models[0]` of the sorted keys.
unfoldable pub least_entry : Map ℕ → Option (Text × ℕ)
unfolding text_before
least_entry [] = none
least_entry ((name, window) ∷ m) = elim (least_entry m) [
  | none ↦ some (name, window)
  | some (other, w) ↦ if text_before name other then some (name, window) else some (other, w)
]

unfoldable pub result_cost : StreamEvent → CostInfo
unfolding least_entry
result_cost e = elim (least_entry e.model_usage) [
  | none ↦ record {
    total_cost_usd = e.total_cost;
    context_used = 0;
    context_window = 0;
    model_name = [];
  }
  | some (name, window) ↦ record {
    total_cost_usd = e.total_cost;
    context_used = 0;
    context_window = window;
    model_name = name;
  }
]

unfoldable pub on_result : StreamSession → StreamEvent → Done
unfolding result_cost is_empty
on_result s e =
    let msg : ServerMsg = record (blank MsgType.result) { session_id = s.id; text = e.result } in
    let c = result_cost e in
    let done_msg : ServerMsg = record (blank MsgType.done) { session_id = s.id } in
    does (record s { stream_context = false })
      ((if is_empty e.result then [] else sends msg ∷ [])
        ++ (if ltb 0 c.total_cost_usd || ltb 0 c.context_window
            then sends (cost_msg s c) ∷ []
            else [])
        ++ sends done_msg ∷ (if s.stream_context then [] else refreshes ∷ []))

unfoldable pub inner_user : Text → StreamSession → StreamEvent → Done
unfolding each_block inner_user_block
inner_user pid s e = each_block (λ t b. inner_user_block pid b.block_type t b) s e.blocks

-- The loop over the notifications in a prompt.
unfoldable pub note_completed : StreamSession → List (Text × Text) → Done
unfolding same close_bg_stop
note_completed s [] = does s []
note_completed s ((id, status) ∷ ms) =
    let done =
      if same status (codes "completed")
      then and_then (does s (sends (task_done_msg s id) ∷ [])) (λ s'. close_bg_stop s' id)
      else does s [] in
    and_then done (λ s'. note_completed s' ms)

unfoldable pub parent_user : Text → StreamSession → StreamEvent → Done
unfolding each_block parent_user_block note_completed notifications
parent_user uuid s e =
    and_then (each_block (λ t b. parent_user_block uuid b.block_type t b) s e.blocks)
      (λ s'. note_completed s' (notifications 0 e.content_text))

-- The `switch` on the type.
unfoldable pub dispatch_event : EventType → Text → Text → StreamSession → StreamEvent → Done
unfolding on_system inner_assistant parent_assistant on_result inner_user parent_user
dispatch_event EventType.system pid uuid s e = on_system e.subtype s e
dispatch_event EventType.assistant pid uuid s e =
    if is_empty pid then parent_assistant uuid s e else inner_assistant pid s e
dispatch_event EventType.result pid uuid s e = on_result s e
dispatch_event EventType.user pid uuid s e =
    if is_empty pid then parent_user uuid s e else inner_user pid s e
dispatch_event EventType.other_event pid uuid s e = does s []

abbrev pub is_line : EventType → Bool
is_line EventType.user = true
is_line EventType.assistant = true
is_line _ = false

-- Whether the event moves the tip.
abbrev pub moves_tip : StreamEvent → Bool
moves_tip e = is_empty (parent_id e) && not (is_empty e.uuid) && is_line e.event_type

-- The session behind the step of the tip.
unfoldable pub at_tip : StreamSession → StreamEvent → StreamSession
unfolding parent_id advance_tip
at_tip s e = record s { chain = if moves_tip e then advance_tip s.chain e.uuid else s.chain }

-- The uuid that messages of the event carry.
unfoldable pub line_uuid : StreamEvent → Text
unfolding parent_id
line_uuid e = if is_empty (parent_id e) then e.uuid else []

unfoldable pub handle_stream_event : StreamSession → StreamEvent → Done
unfolding at_tip line_uuid dispatch_event
handle_stream_event s e = dispatch_event e.event_type (parent_id e) (line_uuid e) (at_tip s e) e

-- The messages of a history, one after the other.
unfoldable pub handle_all : StreamSession → List StreamEvent → Done
unfolding handle_stream_event
handle_all s [] = does s []
handle_all s (e ∷ es) = and_then (handle_stream_event s e) (λ s'. handle_all s' es)
