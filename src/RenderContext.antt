-- ===== src/RenderContext.antt =====
-- pkg/monetdroid/hub.go: what `precomputeRenderContext` gathers from the log for rendering it.
pub mod Maps
pub mod Mirror
mod Tests
use monetdroid.Prelude.{
  ℕ, ◌+◌, Bool, true, false, not, ◌&&◌, if◌then◌else◌, Option, none, some, List, [], ◌∷◌, ◌++◌,
  Text, codes, same, is_empty, any,
}
use monetdroid.Prelude.Maps.{Map, lookup, insert, get_or}
use monetdroid.Types.{MsgType, ServerMsg, is_suppressed_tool}
use monetdroid.BgTask.{BgTaskState, parse_bg_task_path, derive_bg_tasks}
use monetdroid.Model.{SubagentSection}

pub record SubagentRenderState : Type 0 where
  pub section : SubagentSection
  pub inner_events : List ServerMsg

pub record RenderContext : Type 0 where
  pub tool_results : Map ServerMsg
  pub tool_use_indexes : Map ℕ
  pub tool_result_indexes : Map ℕ
  pub bg_tasks : Map BgTaskState
  pub bg_task_results : Map Text
  pub suppressed_ids : Map Bool
  pub pending_perms : Map ServerMsg
  pub subagent_sections : Map SubagentRenderState
  pub active : List Text

abbrev pub is_dormant : List Text → ServerMsg → Bool
is_dormant active msg = not (is_empty msg.uuid) && not (any (same msg.uuid) active)

abbrev pub is_tool_use : MsgType → Bool
is_tool_use MsgType.tool_use = true
is_tool_use _ = false

abbrev pub is_tool_result : MsgType → Bool
is_tool_result MsgType.tool_result = true
is_tool_result _ = false

abbrev is_permission : MsgType → Bool
is_permission MsgType.permission_request = true
is_permission _ = false

-- A tool's message of the main timeline.
abbrev pub is_main : ServerMsg → Bool
is_main msg = not (is_empty msg.tool_use_id) && is_empty msg.agent_id

abbrev fresh_state : Text → SubagentRenderState
fresh_state agent_id = record {
  section = record {
    agent_id = agent_id;
    agent_type = [];
    description = [];
    finished = false;
    final_text = [];
    total_tokens = 0;
    total_tool_uses = 0;
    duration_ms = 0;
  };
  inner_events = [];
}

-- The `switch` on the type, for a message of a sub-agent.
section_after : MsgType → ServerMsg → SubagentRenderState → SubagentRenderState
section_after MsgType.subagent_started msg st = record st {
  section = record st.section { agent_type = msg.agent_type; description = msg.description };
}
section_after MsgType.subagent_finished msg st = record st {
  section = record st.section {
    finished = true;
    final_text = msg.text;
    total_tokens = msg.total_tokens;
    total_tool_uses = msg.total_tool_uses;
    duration_ms = msg.duration_ms;
    description = if is_empty msg.description then st.section.description else msg.description;
  };
}
section_after MsgType.tool_use msg st = record st { inner_events = st.inner_events ++ msg ∷ [] }
section_after MsgType.tool_result msg st = record st { inner_events = st.inner_events ++ msg ∷ [] }
section_after _ msg st = st

-- One round of the loop, for the message at index `i`.
unfoldable pub visit : ℕ → ServerMsg → RenderContext → RenderContext
unfolding section_after get_or
visit i msg rc =
    let id = msg.tool_use_id in
    let path = parse_bg_task_path msg.output in
    let used = is_tool_use msg.msg_type && is_main msg in
    let answered = is_tool_result msg.msg_type && is_main msg in
    let asks = is_permission msg.msg_type && not (same msg.perm_tool (codes "AskUserQuestion")) in
    let st = get_or msg.agent_id rc.subagent_sections (fresh_state msg.agent_id) in
    if is_dormant rc.active msg then rc else record rc {
      tool_use_indexes = if used then insert id i rc.tool_use_indexes else rc.tool_use_indexes;
      tool_results = if answered then insert id msg rc.tool_results else rc.tool_results;
      tool_result_indexes =
          if answered then insert id i rc.tool_result_indexes else rc.tool_result_indexes;
      bg_task_results =
          if answered && not (is_empty path)
          then insert id path rc.bg_task_results
          else rc.bg_task_results;
      suppressed_ids =
          if is_tool_use msg.msg_type && is_suppressed_tool msg.tool
          then insert id true rc.suppressed_ids
          else rc.suppressed_ids;
      pending_perms =
          if asks && not (is_empty id) then insert id msg rc.pending_perms else rc.pending_perms;
      subagent_sections =
          if is_empty msg.agent_id
          then rc.subagent_sections
          else insert msg.agent_id (section_after msg.msg_type msg st) rc.subagent_sections;
    }

unfoldable pub visit_all : ℕ → List ServerMsg → RenderContext → RenderContext
unfolding visit
visit_all i [] rc = rc
visit_all i (msg ∷ log) rc = visit_all (i + 1) log (visit i msg rc)

unfoldable pub empty_context : List ServerMsg → List Text → RenderContext
empty_context log active = record {
  tool_results = [];
  tool_use_indexes = [];
  tool_result_indexes = [];
  bg_tasks = derive_bg_tasks log;
  bg_task_results = [];
  suppressed_ids = [];
  pending_perms = [];
  subagent_sections = [];
  active = active;
}

unfoldable pub precompute_render_context : List ServerMsg → List Text → RenderContext
unfolding visit_all empty_context
precompute_render_context log active = visit_all 0 log (empty_context log active)
