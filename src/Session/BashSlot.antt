-- ===== src/Session/BashSlot.antt =====
-- The foreground Bash command of a session, pkg/monetdroid/session.go: `StoreOutstandingBash`,
-- `ConsumeOutstandingBash`, `ConsumeStreamedBash`, `BashCmdForTool` and `AwaitBashStreamForTool`. A
-- buffer is given by its number; the channel `BashConnected` is open as long as it is not nil.
pub mod Owner
mod Tests
use monetdroid.Prelude.{
  ℕ, Bool, true, false, not, ◌&&◌, ◌||◌, if◌then◌else◌, Option, none, some, List, [], ◌∷◌, Text,
  same, is_empty,
}

pub record BashSlot : Type 0 where
  pub outstanding_bash_id : Text
  pub bash_connected : Bool  -- there is a channel
  pub streamed_bash_id : Text
  pub bash_stream_cmd : Text
  pub bash_stream_lines : Option ℕ

abbrev pub no_bash : BashSlot
no_bash = record {
  outstanding_bash_id = [];
  bash_connected = false;
  streamed_bash_id = [];
  bash_stream_cmd = [];
  bash_stream_lines = none;
}

-- The buffer that the call creates is an argument.
unfoldable pub store_outstanding_bash : BashSlot → Text → Text → ℕ → BashSlot
store_outstanding_bash s id cmd buffer = record s {
  outstanding_bash_id = id;
  bash_stream_cmd = cmd;
  bash_connected = true;
  bash_stream_lines = some buffer;
}

unfoldable pub consume_outstanding_bash : BashSlot → Text → BashSlot × Text
consume_outstanding_bash s expected =
    let id = s.outstanding_bash_id in
    if is_empty id || not (same id expected)
    then (s, [])
    else (record s { outstanding_bash_id = []; bash_connected = false; streamed_bash_id = id }, id)

unfoldable pub consume_streamed_bash : BashSlot → Text → BashSlot × Bool
consume_streamed_bash s id =
    if same s.streamed_bash_id id
    then (record s { streamed_bash_id = []; bash_stream_cmd = []; bash_stream_lines = none }, true)
    else (s, false)

unfoldable pub bash_cmd_for_tool : BashSlot → Text → Text
bash_cmd_for_tool s tool_id =
    if same s.streamed_bash_id tool_id || same s.outstanding_bash_id tool_id
    then s.bash_stream_cmd
    else []

-- The test that `AwaitBashStreamForTool` makes at first, and again when the channel was closed.
unfoldable pub connected_stream : BashSlot → Text → Option (ℕ × Text)
connected_stream s tool_id = elim s.bash_stream_lines [
  | none ↦ none
  | some buffer ↦ if same s.streamed_bash_id tool_id then some (buffer, s.bash_stream_cmd) else none
]

pub data Await : Type 0 where
  found : ℕ → Text → Await
  inactive : Await
  waits : Await

-- What the call does before it waits on the channel.
unfoldable pub await_bash_stream : BashSlot → Text → Await
unfolding connected_stream
await_bash_stream s tool_id = elim (connected_stream s tool_id) [
  | some (buffer, cmd) ↦ found buffer cmd
  | none ↦
      if not (same s.outstanding_bash_id tool_id) || not s.bash_connected then inactive else waits
]
