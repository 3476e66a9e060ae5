-- ===== src/Stream/Event.antt =====
-- The messages of the CLI, pkg/claude/protocol/protocol.go, as they are after decoding, and the part
-- of a session that handleStreamEvent of pkg/monetdroid/claude.go reads and changes.
use monetdroid.Prelude.{
  ◌%◌, ◌^◌, ℕ, ◌+◌, ◌++◌, Bool, true, false, if◌then◌else◌, Option, none, some, List, [], ◌∷◌, Text,
  is_empty,
}
use monetdroid.Prelude.Maps.{Map}
use monetdroid.Types.{ServerMsg, ImageData, ToolInput}
use monetdroid.Session.Agents.{AgentTable, TaskUsage}
use monetdroid.Session.Chain.{Chain}
use monetdroid.Session.BashSlot.{BashSlot}

-- The values of `Type` that the code tests for.
pub data EventType : Type 0 where
  system assistant result user other_event : EventType

pub data Subtype : Type 0 where
  task_started task_progress task_notification other_subtype : Subtype

pub data BlockType : Type 0 where
  thinking text tool_use tool_result other_block : BlockType

pub record BlockContent : Type 0 where
  pub text : Text
  pub images : List ImageData
  pub raw : Text

-- What the code decodes of the JSON of a tool's input.
pub record RawInput : Type 0 where
  pub command : Option Text  -- `none` where the decoding fails
  pub run_in_background : Option Bool  -- nil, or the decoding fails
  pub parsed : Option ToolInput  -- `ParseToolInput`

pub record StreamBlock : Type 0 where
  pub block_type : BlockType
  pub text : Text
  pub thinking : Text
  pub name : Text
  pub id : Text
  pub raw_input : RawInput
  pub tool_use_id : Text
  pub content : BlockContent

pub record StreamUsage : Type 0 where
  pub input_tokens : ℕ
  pub output_tokens : ℕ
  pub cache_read_input_tokens : ℕ
  pub cache_creation_input_tokens : ℕ

-- `ModelUsage` maps a name to its context window.
pub record StreamEvent : Type 0 where
  pub event_type : EventType
  pub subtype : Subtype
  pub uuid : Text
  pub tool_use_id : Text
  pub parent_tool_use_id : Option Text
  pub content_text : Text
  pub blocks : List StreamBlock
  pub message_usage : Option StreamUsage
  pub result : Text
  pub total_cost : ℕ
  pub model_usage : Map ℕ
  pub task_is_local_agent : Bool  -- `TaskType == "local_agent"`
  pub subagent_type : Text
  pub description : Text
  pub summary : Text
  pub last_tool_name : Text
  pub task_usage : Option TaskUsage
  pub task_description : Text

-- The channels of `BgTaskStops` and the output buffers are given by numbers.
pub record StreamSession : Type 0 where
  pub id : Text
  pub cwd : Text
  pub agents : AgentTable
  pub chain : Chain
  pub suppressed : Map Text
  pub stream_context : Bool
  pub bg_task_stops : Map ℕ
  pub bash : BashSlot
  pub bash_signal_path : Text
  pub next_buffer : ℕ

-- What a handler does besides changing the session, in its order.
pub data Action : Type 0 where
  sends : ServerMsg → Action
  closes : ℕ → Action  -- a stop channel
  signals : Text → Text → Action  -- a file and what is written to it
  refreshes : Action  -- starts `refreshTokenCount`

pub record Done : Type 0 where
  pub session : StreamSession
  pub actions : List Action

abbrev pub does : StreamSession → List Action → Done
does s actions = record { session = s; actions = actions }

unfoldable pub parent_id : StreamEvent → Text
parent_id event = elim event.parent_tool_use_id [ some id ↦ id | none ↦ [] ]

-- `BlockContent.String`.
unfoldable pub content_string : BlockContent → Text
unfolding is_empty
content_string c = if is_empty c.text then c.raw else c.text

-- A sum of ints, as its 64 bits.
unfoldable pub context_of : StreamUsage → ℕ
context_of u =
    (u.input_tokens + u.cache_read_input_tokens + u.cache_creation_input_tokens + u.output_tokens)
    % 2 ^ 64

abbrev pub no_images : List ImageData → Bool
no_images [] = true
no_images (_ ∷ _) = false

-- A call and what follows it.
abbrev pub and_then : Done → (StreamSession → Done) → Done
and_then d f = let d' = f d.session in does d'.session (d.actions ++ d'.actions)

-- The loop over the blocks of a message.
unfoldable pub each_block :
    (StreamSession → StreamBlock → Done) → StreamSession → List StreamBlock → Done
each_block f s [] = does s []
each_block f s (b ∷ bs) = and_then (f s b) (λ s'. each_block f s' bs)

-- The messages among the actions.
abbrev pub sent : List Action → List ServerMsg
sent [] = []
sent (sends msg ∷ acts) = msg ∷ sent acts
sent (_ ∷ acts) = sent acts
