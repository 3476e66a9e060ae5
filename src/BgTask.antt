-- ===== src/BgTask.antt =====
-- pkg/monetdroid/bgtask.go: the background commands of a session, derived from its log.
mod Tests
use monetdroid.Prelude.{
  ℕ, suc, ◌+◌, Bool, true, false, not, ◌&&◌, ◌==◌, if◌then◌else◌, Option, none, some, List, [], ◌∷◌,
  Text, codes, same, is_empty, has_prefix, take, drop, length,
}
use monetdroid.Prelude.Split.{span}
use monetdroid.Prelude.Maps.{Map, lookup, insert, get_or}
use monetdroid.Types.{MsgType, ServerMsg, ToolInput}

pub record BgTaskState : Type 0 where
  pub command : Text
  pub output_path : Text
  pub completed : Bool

-- The last position at which the text, the first argument, stands.
last_index_of : Text → Text → Option ℕ
last_index_of sub [] = none
last_index_of sub (c ∷ s) = elim (last_index_of sub s) [
  | some i ↦ some (suc i)
  | none ↦ if has_prefix sub (c ∷ s) then some 0 else none
]

-- `(.+\.output)` at the head of a line: the longest match.
output_name : Text → Option Text
unfolding last_index_of
output_name [] = none
output_name (c ∷ s) = elim (last_index_of (codes ".output") s) [
  | none ↦ none
  | some i ↦ some (c ∷ take (i + 7) s)
]

abbrev marker : Text
marker = codes "Output is being written to: "

-- `ParseBgTaskPath`: the group of the leftmost match of `Output is being written to: (.+\.output)`,
-- or the empty text.
unfoldable pub parse_bg_task_path : Text → Text
unfolding output_name span
parse_bg_task_path [] = []
parse_bg_task_path (c ∷ s) =
    let later = parse_bg_task_path s in
    if has_prefix marker (c ∷ s)
    then elim (output_name (span (λ d. not (d == b'\n')) (drop (length marker) (c ∷ s))).0) [
      | some path ↦ path
      | none ↦ later
    ]
    else later

-- The command of a Bash tool_use of the main timeline.
abbrev pub bash_command : ServerMsg → Option Text
bash_command msg =
    if same msg.tool (codes "Bash") && is_empty msg.agent_id
    then elim msg.input [ none ↦ none | some i ↦ i.bash ]
    else none

-- The two maps of the scan.
pub record BgScan : Type 0 where
  pub commands : Map Text
  pub bg : Map BgTaskState

abbrev complete : BgTaskState → BgTaskState
complete st = record st { completed = true }

abbrev pub complete_task : Text → Map BgTaskState → Map BgTaskState
complete_task id bg = elim (lookup id bg) [ none ↦ bg | some st ↦ insert id (complete st) bg ]

unfoldable pub scan_message : MsgType → ServerMsg → BgScan → BgScan
scan_message MsgType.tool_use msg s = elim (bash_command msg) [
  | none ↦ s
  | some cmd ↦ record s { commands = insert msg.tool_use_id cmd s.commands }
]
scan_message MsgType.tool_result msg s =
    let path = parse_bg_task_path msg.output in
    let st : BgTaskState = record {
      command = get_or msg.tool_use_id s.commands [];
      output_path = path;
      completed = false;
    } in
    if is_empty msg.tool_use_id
    then s
    else if not (is_empty msg.agent_id)
    then s
    else if is_empty path
    then s
    else record s { bg = insert msg.tool_use_id st s.bg }
scan_message MsgType.task_done msg s =
    if is_empty msg.tool_use_id then s else record s { bg = complete_task msg.tool_use_id s.bg }
scan_message _ msg s = s

unfoldable pub scan_log : BgScan → List ServerMsg → BgScan
unfolding scan_message
scan_log s [] = s
scan_log s (msg ∷ log) = scan_log (scan_message msg.msg_type msg s) log

abbrev pub empty_scan : BgScan
empty_scan = record { commands = []; bg = [] }

unfoldable pub derive_bg_tasks : List ServerMsg → Map BgTaskState
unfolding scan_log
derive_bg_tasks log = (scan_log empty_scan log).bg
