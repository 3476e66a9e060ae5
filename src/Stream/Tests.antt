-- ===== src/Stream/Tests.antt =====
-- Messages of the CLI as handleStreamEvent of pkg/monetdroid/claude.go takes them.
use monetdroid.Prelude.{
  ◌≡◌, refl, true, false, Option, none, some, List, [], ◌∷◌, Text, codes, count, same, is_empty,
}
use monetdroid.Prelude.Maps.{has, lookup, insert, get_or}
use monetdroid.Session.Agents.{no_agents, start_agent, get_agent_stat}
use monetdroid.Session.BashSlot.{no_bash}
use monetdroid.Model.{
  SessionModel, ModelBase, apply, link_message, dispatch, on_tool_use, todos_after, apply_all,
  initial_model,
}
use monetdroid.Stream.Event.{
  EventType, Subtype, BlockType, RawInput, StreamBlock, StreamEvent, StreamSession, each_block,
  sent, parent_id,
}
use monetdroid.Stream.Blocks.{inner_assistant_block}
use monetdroid.Stream.{
  at_tip, line_uuid, dispatch_event, inner_assistant, announce_skill, is_known, handle_stream_event,
  handle_all,
}
use monetdroid.Stream.Sections.{shown_running, handle_all-running}
use monetdroid.Stream.Lines.{every}
use monetdroid.Stream.Tip.{main_lines, is_linked, handle_all-linked}
use monetdroid.Stream.Inner.{is_inner, handle_inner-inside}
use monetdroid.Stream.Answers.{answers, awaited, handle_results-answered}
use monetdroid.Stream.Still.{ends_turn, is_refresh}
use monetdroid.Stream.Turns.{results, unreported, handle_all-turns}

abbrev session : StreamSession
session = record {
  id = codes "s";
  cwd = codes "/w";
  agents = no_agents;
  chain = record { tip = []; line_parents = [] };
  suppressed = [];
  stream_context = false;
  bg_task_stops = [];
  bash = no_bash;
  bash_signal_path = [];
  next_buffer = 0;
}

abbrev no_input : RawInput
no_input = record { command = none; run_in_background = none; parsed = none }

abbrev block : BlockType → Text → Text → StreamBlock
block t name id = record {
  block_type = t;
  text = codes "hi";
  thinking = [];
  name = name;
  id = id;
  raw_input = no_input;
  tool_use_id = id;
  content = record { text = codes "found"; images = []; raw = [] };
}

abbrev event : EventType → Option Text → Text → List StreamBlock → StreamEvent
event t parent uuid blocks = record {
  event_type = t;
  subtype = Subtype.other_subtype;
  uuid = uuid;
  tool_use_id = [];
  parent_tool_use_id = parent;
  content_text = [];
  blocks = blocks;
  message_usage = none;
  result = [];
  total_cost = 0;
  model_usage = [];
  task_is_local_agent = false;
  subagent_type = [];
  description = [];
  summary = [];
  last_tool_name = [];
  task_usage = none;
  task_description = [];
}

abbrev asks : StreamEvent
asks =
    event EventType.assistant none (codes "u")
      (block BlockType.text [] [] ∷ block BlockType.tool_use (codes "Agent") (codes "a") ∷ [])

abbrev inner : StreamEvent
inner =
    event EventType.assistant (some (codes "b")) (codes "x")
      (block BlockType.text [] [] ∷ block BlockType.tool_use (codes "Grep") (codes "g") ∷ [])

abbrev answered : StreamEvent
answered = event EventType.user none (codes "v") (block BlockType.tool_result [] (codes "a") ∷ [])

abbrev ends : StreamEvent
ends = event EventType.result none [] []

abbrev history : List StreamEvent
history = asks ∷ inner ∷ answered ∷ ends ∷ []

abbrev base : ModelBase
base = record {
  cwd = codes "/w";
  label = [];
  auto_label = true;
  perm_mode = codes "default";
  cost = record { total_cost_usd = 0; context_used = 0; context_window = 0; model_name = [] };
  diff_stat = record { added = 0; removed = 0 };
  tip = [];
  line_parents = [];
  process_alive = true;
}

abbrev model : SessionModel
model = initial_model base (codes "s")

abbrev skill : List StreamEvent
skill = inner ∷ []

skill_shown :
    shown_running
      (codes "b")
      (apply_all model (sent (handle_all session skill).actions)).subagent_sections
    ≡ true
unfolding handle_all handle_stream_event at_tip line_uuid dispatch_event inner_assistant
    announce_skill is_known get_agent_stat each_block inner_assistant_block parent_id is_empty same
    insert lookup has get_or start_agent apply_all apply link_message dispatch on_tool_use
    todos_after initial_model
skill_shown = refl

handle_all-running_example :
    has (codes "b") (handle_all session skill).session.agents.agent_tool_ids ≡ true
handle_all-running_example =
    handle_all-running session model skill (codes "b")
      (record { counted = refl; unique = tt; all_true = tt }) (unfold initial_model in refl)
      (unfold is_empty in refl) skill_shown

handle_all-linked_example :
    every
      (is_linked (handle_all session history).session.chain)
      (sent (handle_all session history).actions)
    ≡ true
handle_all-linked_example = handle_all-linked session history

handle_inner-inside_example :
    every (is_inner (parent_id inner)) (sent (handle_stream_event session inner).actions) ≡ true
unfolding parent_id
handle_inner-inside_example = handle_inner-inside session inner (unfold is_empty in refl) refl

handle_results-answered_example :
    answers (sent (handle_stream_event session answered).actions)
    ≡ awaited session.agents answered.blocks
unfolding parent_id
handle_results-answered_example =
    handle_results-answered session answered refl (unfold is_empty in refl)

handle_all-turns_example :
    (count ends_turn (handle_all session history).actions ≡ results history)
    × (count is_refresh (handle_all session history).actions ≡ unreported false history)
handle_all-turns_example = handle_all-turns session history

history_sends : main_lines history ≡ codes "u" ∷ codes "v" ∷ []
unfolding parent_id is_empty
history_sends = refl
