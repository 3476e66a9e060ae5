-- ===== src/Model.antt =====
-- pkg/monetdroid/model.go: the session model, which is folded from the session's log by `Apply` and
-- then changed by it with every event. The channel and the goroutine are a sequence of events.
pub mod State
pub mod Activity
pub mod Mirror
mod Tests
use monetdroid.Prelude.{
  ℕ, ◌+◌, ◌-◌, ltb, Bool, true, false, not, ◌&&◌, ◌||◌, if◌then◌else◌, Option, none, some, List, [],
  ◌∷◌, ◌++◌, Text, codes, same, is_empty, length,
}
use monetdroid.Prelude.Maps.{Map, lookup, insert, delete, has, get_or, any_value}
use monetdroid.Types.{
  is_positive, MsgType, ServerMsg, Todo, ToolInput, TaskCreateInput, TaskUpdateInput, CostInfo,
  DiffStat, is_suppressed_tool, parse_todos, itoa,
}
use monetdroid.BgTask.{BgTaskState, bash_command, complete_task, parse_bg_task_path}
unfoldable pub use State.{has_activity, can_interrupt}
pub use State.{SubagentSection, SessionModel, ModelBase}

-- The start of `Apply`: a live message that carries a uuid which is not linked yet extends the
-- active chain.
unfoldable pub link_message : ServerMsg → SessionModel → SessionModel
link_message msg m =
    if not m.folding && not (is_empty msg.uuid) && is_empty msg.agent_id
    then (if has msg.uuid m.line_parents
        then m
        else record m { line_parents = insert msg.uuid m.tip m.line_parents; tip = msg.uuid })
    else m

-- The `switch` on the status of a `TaskUpdate`, at the todo with the id.
update_todos : TaskUpdateInput → List Todo → List Todo
unfolding same is_empty
update_todos u [] = []
update_todos u (t ∷ ts) =
    let later = t ∷ update_todos u ts in
    if same t.id u.task_id
    then (if same u.status (codes "deleted")
        then ts
        else if is_empty u.status
        then t ∷ ts
        else record t { status = u.status } ∷ ts)
    else later

abbrev created : List Todo → TaskCreateInput → Todo
created ts c = record {
  id = itoa (length ts + 1);
  content = c.subject;
  active_form = c.active_form;
  status = codes "pending";
}

-- The `switch` on the tool.
unfoldable pub todos_after : ServerMsg → List Todo → List Todo
unfolding update_todos same parse_todos
todos_after msg ts =
    if same msg.tool (codes "TodoWrite")
    then elim (parse_todos msg.input) [ none ↦ ts | some ts' ↦ ts' ]
    else if same msg.tool (codes "TaskCreate")
    then elim msg.input [
      | none ↦ ts
      | some i ↦ elim i.task_create [ none ↦ ts | some c ↦ ts ++ created ts c ∷ [] ]
    ]
    else if same msg.tool (codes "TaskUpdate")
    then elim msg.input [
      | none ↦ ts
      | some i ↦ elim i.task_update [ none ↦ ts | some u ↦ update_todos u ts ]
    ]
    else ts

-- The maps are built one by one, so that each part of the state shows what it depends on.
unfoldable pub on_tool_use : ServerMsg → SessionModel → SessionModel
unfolding todos_after
on_tool_use msg m =
    let id = msg.tool_use_id in
    if is_empty id then m else record m {
      tool_use_indexes =
          if is_empty msg.agent_id
          then insert id (length m.messages - 1) m.tool_use_indexes
          else m.tool_use_indexes;
      suppressed_ids =
          if is_suppressed_tool msg.tool then insert id true m.suppressed_ids else m.suppressed_ids;
      pending_commands = elim (bash_command msg) [
        | none ↦ m.pending_commands
        | some cmd ↦ insert id cmd m.pending_commands
      ];
      todos = todos_after msg m.todos;
    }

unfoldable pub on_tool_result : ServerMsg → SessionModel → SessionModel
on_tool_result msg m =
    let id = msg.tool_use_id in
    let path = parse_bg_task_path msg.output in
    let st : BgTaskState = record {
      command = get_or id m.pending_commands [];
      output_path = path;
      completed = false;
    } in
    if is_empty id
    then m
    else if not (is_empty msg.agent_id)
    then record m { pending_perms = delete id m.pending_perms }
    else record m {
      pending_perms = delete id m.pending_perms;
      tool_results = insert id msg m.tool_results;
      tool_result_indexes = insert id (length m.messages - 1) m.tool_result_indexes;
      bg_tasks = if is_empty path then m.bg_tasks else insert id st m.bg_tasks;
    }

unfoldable pub merge_cost : CostInfo → CostInfo → CostInfo
merge_cost new old = record {
  total_cost_usd = if ltb 0 new.total_cost_usd then new.total_cost_usd else old.total_cost_usd;
  context_used = if is_positive new.context_used then new.context_used else old.context_used;
  context_window = if ltb 0 new.context_window then new.context_window else old.context_window;
  model_name = if is_empty new.model_name then old.model_name else new.model_name;
}

abbrev pub started_section : ServerMsg → SubagentSection
started_section msg = record {
  agent_id = msg.agent_id;
  agent_type = msg.agent_type;
  description = msg.description;
  finished = false;
  final_text = [];
  total_tokens = 0;
  total_tool_uses = 0;
  duration_ms = 0;
}

abbrev pub finish_section : ServerMsg → SubagentSection → SubagentSection
finish_section msg s = record s {
  finished = true;
  final_text = msg.text;
  total_tokens = msg.total_tokens;
  total_tool_uses = msg.total_tool_uses;
  duration_ms = msg.duration_ms;
  description = if is_empty msg.description then s.description else msg.description;
}

-- The `switch` on the type; the types that have no case change nothing.
unfoldable pub dispatch : MsgType → ServerMsg → SessionModel → SessionModel
unfolding on_tool_use on_tool_result merge_cost
dispatch MsgType.tool_use msg m = on_tool_use msg m
dispatch MsgType.tool_result msg m = on_tool_result msg m
dispatch MsgType.task_done msg m =
    if is_empty msg.tool_use_id
    then m
    else record m { bg_tasks = complete_task msg.tool_use_id m.bg_tasks }
dispatch MsgType.running msg m = record m { turn_active = true }
dispatch MsgType.done msg m = record m { turn_active = false }
dispatch MsgType.session_started msg m = record m {
  process_alive = true;
  turn_active = false;
  pending_perms = [];
  bg_tasks = [];
  subagent_sections = [];
}
dispatch MsgType.session_ended msg m = record m { process_alive = false }
dispatch MsgType.cost msg m = elim msg.cost [
  | none ↦ m
  | some c ↦ record m { cost = merge_cost c m.cost }
]
dispatch MsgType.permission_request msg m =
    if not (same msg.perm_tool (codes "AskUserQuestion")) && not (is_empty msg.tool_use_id)
    then record m { pending_perms = insert msg.tool_use_id msg m.pending_perms }
    else m
dispatch MsgType.subagent_started msg m = if is_empty msg.agent_id then m else record m {
  subagent_sections = insert msg.agent_id (started_section msg) m.subagent_sections;
}
dispatch MsgType.subagent_finished msg m =
    if is_empty msg.agent_id then m else elim (lookup msg.agent_id m.subagent_sections) [
      | none ↦ m
      | some s ↦ record m {
        subagent_sections = insert msg.agent_id (finish_section msg s) m.subagent_sections;
      }
    ]
dispatch _ msg m = m

unfoldable pub apply : SessionModel → ServerMsg → SessionModel
unfolding link_message dispatch
apply m msg =
    dispatch msg.msg_type msg (link_message msg (record m { messages = m.messages ++ msg ∷ [] }))

unfoldable pub apply_all : SessionModel → List ServerMsg → SessionModel
apply_all m [] = m
apply_all m (msg ∷ log) = apply_all (apply m msg) log

-- A model that has folded nothing yet.
unfoldable pub initial_model : ModelBase → Text → SessionModel
initial_model base session_id = record {
  messages = [];
  todos = [];
  cost = base.cost;
  diff_stat = base.diff_stat;
  bg_tasks = [];
  tool_use_indexes = [];
  tool_result_indexes = [];
  tool_results = [];
  suppressed_ids = [];
  pending_perms = [];
  subagent_sections = [];
  tip = base.tip;
  line_parents = base.line_parents;
  cwd = base.cwd;
  label = base.label;
  auto_label = base.auto_label;
  perm_mode = base.perm_mode;
  pending_commands = [];
  turn_active = false;
  process_alive = base.process_alive;
  session_id = session_id;
  folding = true;
}

unfoldable pub build_model : ModelBase → List ServerMsg → Text → SessionModel
unfolding initial_model apply_all
build_model base log session_id = record (apply_all (initial_model base session_id) log) {
  folding = false;
}
