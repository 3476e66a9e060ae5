-- ===== src/Stream/System.antt =====
-- The system messages of handleStreamEvent, pkg/monetdroid/claude.go, which tell what sub-agents and
-- background commands do, with CloseBgStop of pkg/monetdroid/session.go.
use monetdroid.Prelude.{not, ◌&&◌, if◌then◌else◌, Option, none, some, List, [], ◌∷◌, Text, is_empty}
use monetdroid.Prelude.Maps.{lookup, delete}
use monetdroid.Types.{MsgType, ServerMsg, AgentStat, blank}
use monetdroid.Session.Agents.{
  AgentTable, start_agent, finish_agent, update_agent_stat, get_agent_stat,
}
use monetdroid.Stream.Event.{
  Subtype, StreamEvent, StreamSession, Action, sends, closes, Done, does, and_then,
}
use monetdroid.Stream.Blocks.{finished_msg, task_done_msg}

unfoldable pub close_bg_stop : StreamSession → Text → Done
close_bg_stop s id = elim (lookup id s.bg_task_stops) [
  | none ↦ does s []
  | some channel ↦
      does (record s { bg_task_stops = delete id s.bg_task_stops }) (closes channel ∷ [])
]

abbrev pub with_agents : StreamSession → AgentTable → StreamSession
with_agents s t = record s { agents = t }

abbrev pub started_msg : StreamSession → Text → Text → Text → ServerMsg
started_msg s id agent_type description = record (blank MsgType.subagent_started) {
  session_id = s.id;
  agent_id = id;
  agent_type = agent_type;
  description = description;
}

unfoldable pub on_task_started : StreamSession → StreamEvent → Done
on_task_started s e =
    if e.task_is_local_agent && not (is_empty e.tool_use_id)
    then does (with_agents s (start_agent s.agents e.tool_use_id e.description))
        (sends (started_msg s e.tool_use_id e.subagent_type e.description) ∷ [])
    else does s []

abbrev progress_msg : StreamSession → Text → AgentStat → ServerMsg
progress_msg s id stat = record (blank MsgType.agent_progress) {
  session_id = s.id;
  tool_use_id = id;
  agent_stat = some stat;
}

abbrev progress_of : StreamSession → Text → Option AgentStat → List Action
progress_of s id none = []
progress_of s id (some stat) = sends (progress_msg s id stat) ∷ []

unfoldable pub on_task_progress : StreamSession → StreamEvent → Done
on_task_progress s e =
    let id = e.tool_use_id in
    let t = update_agent_stat s.agents id e.task_usage e.description e.last_tool_name in
    if is_empty id
    then does s []
    else does (with_agents s t) (progress_of s id (get_agent_stat t id))

-- The end of a task: a background agent is finished here, any other agent at its result.
unfoldable pub end_task : StreamSession → StreamEvent → Option AgentStat → Done
end_task s e none = does s (sends (task_done_msg s e.tool_use_id) ∷ [])
end_task s e (some stat) =
    let id = e.tool_use_id in
    if stat.background
    then does (with_agents s (finish_agent s.agents id))
        (sends (finished_msg s id e.summary stat) ∷ sends (task_done_msg s id) ∷ [])
    else does s []

unfoldable pub on_task_notification : StreamSession → StreamEvent → Done
unfolding end_task close_bg_stop
on_task_notification s e =
    let id = e.tool_use_id in
    let t : AgentTable = elim e.task_usage [
      | none ↦ s.agents
      | some u ↦ update_agent_stat s.agents id (some u) e.summary []
    ] in
    let d = end_task (with_agents s t) e (get_agent_stat t id) in
    if is_empty id then does s [] else and_then d (λ s'. close_bg_stop s' id)

unfoldable pub on_system : Subtype → StreamSession → StreamEvent → Done
unfolding on_task_started on_task_progress on_task_notification
on_system Subtype.task_started s e = on_task_started s e
on_system Subtype.task_progress s e = on_task_progress s e
on_system Subtype.task_notification s e = on_task_notification s e
on_system Subtype.other_subtype s e = does s []
