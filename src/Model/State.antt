-- ===== src/Model/State.antt =====
-- The state of a session model and what it says of activity, pkg/monetdroid/model.go.
use monetdroid.Prelude.{ℕ, Bool, true, false, not, ◌&&◌, ◌||◌, if◌then◌else◌, List, [], ◌∷◌, Text}
use monetdroid.Prelude.Maps.{Map, any_value}
use monetdroid.Types.{ServerMsg, Todo, CostInfo, DiffStat}
use monetdroid.BgTask.{BgTaskState}

pub record SubagentSection : Type 0 where
  pub agent_id : Text
  pub agent_type : Text
  pub description : Text
  pub finished : Bool
  pub final_text : Text
  pub total_tokens : ℕ
  pub total_tool_uses : ℕ
  pub duration_ms : ℕ

pub record SessionModel : Type 0 where
  pub messages : List ServerMsg
  pub todos : List Todo
  pub cost : CostInfo
  pub diff_stat : DiffStat
  pub bg_tasks : Map BgTaskState
  pub tool_use_indexes : Map ℕ
  pub tool_result_indexes : Map ℕ
  pub tool_results : Map ServerMsg
  pub suppressed_ids : Map Bool
  pub pending_perms : Map ServerMsg
  pub subagent_sections : Map SubagentSection
  pub tip : Text
  pub line_parents : Map Text
  pub cwd : Text
  pub label : Text
  pub auto_label : Bool
  pub perm_mode : Text
  pub pending_commands : Map Text
  pub turn_active : Bool
  pub process_alive : Bool
  pub session_id : Text
  pub folding : Bool

pub record ModelBase : Type 0 where
  pub cwd : Text
  pub label : Text
  pub auto_label : Bool
  pub perm_mode : Text
  pub cost : CostInfo
  pub diff_stat : DiffStat
  pub tip : Text
  pub line_parents : Map Text
  pub process_alive : Bool

abbrev no_entries {ℓ} : {V : Type ℓ} → Map V → Bool
no_entries [] = true
no_entries (_ ∷ _) = false

abbrev is_open : BgTaskState → Bool
is_open bt = not bt.completed

abbrev is_running : SubagentSection → Bool
is_running s = not s.finished

unfoldable pub has_activity : SessionModel → Bool
has_activity m =
    if not m.process_alive
    then false
    else if m.turn_active
    then true
    else if not (no_entries m.pending_perms)
    then true
    else if any_value is_open m.bg_tasks
    then true
    else any_value is_running m.subagent_sections

unfoldable pub can_interrupt : SessionModel → Bool
can_interrupt m = m.process_alive && (m.turn_active || not (no_entries m.pending_perms))
