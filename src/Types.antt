-- ===== src/Types.antt =====
-- The messages and inputs that the parts of pkg/monetdroid exchange: types.go, and what it uses of
-- pkg/claude/protocol/protocol.go. An `int` that is only copied and compared with 0, where a
-- negative value counts as none, is a number; so is the float of a cost.
use monetdroid.Prelude.{
  ◌&&◌, ◌^◌, ℕ, zero, suc, ◌+◌, ◌/◌, ◌%◌, ◌==◌, ltb, Bool, true, false, ◌||◌, Option, none, some,
  List, [], ◌∷◌, Text, codes, same, if◌then◌else◌, any, ◌≡◌, refl, has_prefix,
}
use mathlib.Core.List.{reverse}
use monetdroid.Prelude.Split.{is_space}

pub record ImageData : Type 0 where
  pub media_type : Text
  pub payload : Text

pub record Todo : Type 0 where
  pub id : Text
  pub content : Text
  pub active_form : Text
  pub status : Text

pub record TaskCreateInput : Type 0 where
  pub subject : Text
  pub active_form : Text

pub record TaskUpdateInput : Type 0 where
  pub task_id : Text
  pub status : Text

-- The inputs of the tools that the modelled code looks into.
pub record ToolInput : Type 0 where
  pub bash : Option Text  -- the command
  pub todo : Option (Option (List Todo))  -- a nil slice is `none`
  pub task_create : Option TaskCreateInput
  pub task_update : Option TaskUpdateInput

pub record CostInfo : Type 0 where
  pub total_cost_usd : ℕ
  pub context_used : ℕ
  pub context_window : ℕ
  pub model_name : Text

pub record DiffStat : Type 0 where
  pub added : ℕ
  pub removed : ℕ

-- The values that the code gives to `ServerMsg.Type`.
pub data MsgType : Type 0 where
  tool_use tool_result task_done running done session_started session_ended cost : MsgType
  permission_request permission_mode subagent_started subagent_finished : MsgType
  text thinking text_delta thinking_delta user_message error result agent_progress : MsgType

-- The progress of a sub-agent.
pub record AgentStat : Type 0 where
  pub description : Text
  pub total_tokens : ℕ
  pub tool_uses : ℕ
  pub duration_ms : ℕ
  pub last_tool_name : Text
  pub completed : Bool
  pub background : Bool

-- `PermSuggestions`, which no modelled code reads, is left out.
pub record ServerMsg : Type 0 where
  pub msg_type : MsgType
  pub session_id : Text
  pub text : Text
  pub images : List ImageData
  pub tool : Text
  pub tool_use_id : Text
  pub cwd : Text
  pub input : Option ToolInput
  pub output : Text
  pub error_text : Text
  pub cost : Option CostInfo
  pub agent_id : Text
  pub agent_type : Text
  pub description : Text
  pub total_tokens : ℕ
  pub total_tool_uses : ℕ
  pub duration_ms : ℕ
  pub agent_stat : Option AgentStat
  pub perm_id : Text
  pub perm_tool : Text
  pub perm_input : Option ToolInput
  pub perm_reason : Text
  pub perm_mode : Text
  pub uuid : Text

-- A message with the given type and all else at its zero value.
abbrev pub blank : MsgType → ServerMsg
blank t = record {
  msg_type = t;
  session_id = [];
  text = [];
  images = [];
  tool = [];
  tool_use_id = [];
  cwd = [];
  input = none;
  output = [];
  error_text = [];
  cost = none;
  agent_id = [];
  agent_type = [];
  description = [];
  total_tokens = 0;
  total_tool_uses = 0;
  duration_ms = 0;
  agent_stat = none;
  perm_id = [];
  perm_tool = [];
  perm_input = none;
  perm_reason = [];
  perm_mode = [];
  uuid = [];
}

-- `suppressResultTools[name]`.
unfoldable pub is_suppressed_tool : Text → Bool
unfolding same
is_suppressed_tool name = any (same name) (
    codes "TodoWrite"
    ∷ codes "TaskCreate"
    ∷ codes "TaskUpdate"
    ∷ codes "AskUserQuestion"
    ∷ codes "Read"
    ∷ codes "FileRead"
    ∷ codes "Agent"
    ∷ [])

-- The order of strings.
unfoldable pub text_before : Text → Text → Bool
text_before [] t = true
text_before (c ∷ s) [] = false
text_before (c ∷ s) (d ∷ t) = let later = text_before s t in if c == d then later else ltb c d

-- `strings.TrimLeft` of the white space of ASCII.
unfoldable pub trim_left_space : Text → Text
trim_left_space [] = []
trim_left_space (c ∷ s) = if is_space c then trim_left_space s else c ∷ s

-- `strings.TrimSpace`, for the white space of ASCII.
unfoldable pub trim_space : Text → Text
unfolding trim_left_space reverse
trim_space s = reverse (trim_left_space (reverse (trim_left_space s)))

-- `strings.HasSuffix(s, p)`, the suffix first.
unfoldable pub has_suffix : Text → Text → Bool
unfolding has_prefix reverse
has_suffix p s = has_prefix (reverse p) (reverse s)

unfoldable pub is_boring_result : Text → Bool
unfolding trim_space has_suffix
is_boring_result output =
    let s = trim_space output in
    has_suffix (codes "has been updated successfully.") s
    || has_suffix (codes "has been written successfully.") s

-- `ParseTodos`.
unfoldable pub parse_todos : Option ToolInput → Option (List Todo)
parse_todos none = none
parse_todos (some input) = elim input.todo [ none ↦ none | some todos ↦ todos ]

unfoldable pub decimal_from : ℕ → ℕ → Text → Text
decimal_from zero n out = out
decimal_from (suc fuel) n out =
    let digit = b'0' + n % 10 in
    let rest = decimal_from fuel (n / 10) (digit ∷ out) in if n == 0 then out else rest

-- Whether an int, as its 64 bits, is more than 0.
abbrev pub is_positive : ℕ → Bool
is_positive n = ltb 0 n && ltb n (2 ^ 63)

-- `strconv.Itoa` of a number. Each round divides by ten, so `n` rounds are enough.
unfoldable pub itoa : ℕ → Text
unfolding decimal_from
itoa n = if n == 0 then b'0' ∷ [] else decimal_from n n []

itoa_example : itoa 1050 ≡ codes "1050"
unfolding itoa
itoa_example = refl

boring_example :
    (is_boring_result (codes " The file a.go has been updated successfully.\n") ≡ true)
    × (is_boring_result (codes "has been updated successfully. Line 3:") ≡ false)
unfolding is_boring_result trim_space trim_left_space has_suffix has_prefix reverse
boring_example = (refl, refl)
