-- ===== src/Session/Agents.antt =====
-- The table of sub-agents of a session, pkg/monetdroid/session.go: `StartAgent`, `FinishAgent`,
-- `MarkAgentBackground`, `UpdateAgentStat` and the getters. A nil map and an empty one are not told
-- apart. The depth is an int: `AgentDepth--` runs only below an active id, which is counted in it.
pub mod Depth
mod Tests
use monetdroid.Prelude.{
  ℕ, ◌+◌, ◌-◌, Bool, true, false, not, ◌&&◌, if◌then◌else◌, Option, none, some, [], Text, is_empty,
}
use monetdroid.Prelude.Maps.{Map, lookup, insert, delete, get_or}
use monetdroid.Types.{AgentStat}

pub record TaskUsage : Type 0 where
  pub total_tokens : ℕ
  pub tool_uses : ℕ
  pub duration_ms : ℕ

pub record AgentTable : Type 0 where
  pub agent_depth : ℕ
  pub agent_tool_ids : Map Bool
  pub agent_stats : Map AgentStat

abbrev pub no_agents : AgentTable
no_agents = record { agent_depth = 0; agent_tool_ids = []; agent_stats = [] }

abbrev pub new_stat : Text → AgentStat
new_stat description = record {
  description = description;
  total_tokens = 0;
  tool_uses = 0;
  duration_ms = 0;
  last_tool_name = [];
  completed = false;
  background = false;
}

-- Changes the stat that the pointer of the map points to, if there is one.
abbrev pub change_stat : Text → (AgentStat → AgentStat) → Map AgentStat → Map AgentStat
change_stat id f m = elim (lookup id m) [ none ↦ m | some stat ↦ insert id (f stat) m ]

abbrev describe : Text → AgentStat → AgentStat
describe description stat =
    if not (is_empty description) && is_empty stat.description
    then record stat { description = description }
    else stat

unfoldable pub start_agent : AgentTable → Text → Text → AgentTable
unfolding get_or is_empty
start_agent s id description =
    if get_or id s.agent_tool_ids false
    then record s { agent_stats = change_stat id (describe description) s.agent_stats }
    else record {
      agent_depth = s.agent_depth + 1;
      agent_tool_ids = insert id true s.agent_tool_ids;
      agent_stats = insert id (new_stat description) s.agent_stats;
    }

abbrev pub complete : AgentStat → AgentStat
complete stat = record stat { completed = true }

unfoldable pub finish_agent : AgentTable → Text → AgentTable
unfolding get_or
finish_agent s id =
    let s1 =
      if get_or id s.agent_tool_ids false
      then record s { agent_depth = s.agent_depth - 1; agent_tool_ids = delete id s.agent_tool_ids }
      else s in
    record s1 { agent_stats = change_stat id complete s1.agent_stats }

unfoldable pub mark_agent_background : AgentTable → Text → AgentTable
mark_agent_background s id = record s {
  agent_stats = change_stat id (λ stat. record stat { background = true }) s.agent_stats;
}

abbrev with_usage : Option TaskUsage → AgentStat → AgentStat
with_usage none stat = stat
with_usage (some u) stat = record stat {
  total_tokens = u.total_tokens;
  tool_uses = u.tool_uses;
  duration_ms = u.duration_ms;
}

abbrev with_texts : Text → Text → AgentStat → AgentStat
with_texts description last_tool stat =
    let s1 = if is_empty description then stat else record stat { description = description } in
    if is_empty last_tool then s1 else record s1 { last_tool_name = last_tool }

unfoldable pub update_agent_stat : AgentTable → Text → Option TaskUsage → Text → Text → AgentTable
update_agent_stat s id usage description last_tool = record s {
  agent_stats =
      change_stat id (λ stat. with_texts description last_tool (with_usage usage stat))
        s.agent_stats;
}

unfoldable pub get_agent_stat : AgentTable → Text → Option AgentStat
get_agent_stat s id = lookup id s.agent_stats
