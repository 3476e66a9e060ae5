-- ===== src/Process/Scan.antt =====
-- pkg/claude/process.go: what `scan` does with a line of the CLI's output, and the answers to the
-- permission requests of the CLI. A line comes decoded; one that is empty or whose decoding fails
-- is `broken`. The suggestions of a permission request are opaque texts.
use monetdroid.Prelude.{
  Bool, true, false, if◌then◌else◌, Option, none, some, List, [], ◌∷◌, ◌++◌, Text, codes, is_empty,
}
use monetdroid.Types.{ImageData, ToolInput}
use monetdroid.Process.{CtlResponse}

pub record PermissionRequest : Type 0 where
  pub request_id : Text
  pub tool_name : Text
  pub tool_use_id : Text
  pub input : Option ToolInput
  pub decision_reason : Text
  pub suggestions : List Text

pub record PermResponse : Type 0 where
  pub allow : Bool
  pub permissions : List Text
  pub updated_input : Option ToolInput
  pub message : Text

abbrev pub zero_response : PermResponse
zero_response = record { allow = false; permissions = []; updated_input = none; message = [] }

pub data PermPayload : Type 0 where
  allows : Option ToolInput → List Text → PermPayload
  denies : Text → PermPayload

abbrev rejection : Text
rejection =
    codes
      "The user doesn't want to proceed with this tool use. The tool use was rejected (eg. if it was a file edit, the new_string was NOT written to the file). To tell you how to proceed, the user said:\n"

abbrev denial : Text → Text
denial message = if is_empty message then codes "User denied this action" else rejection ++ message

unfoldable pub send_perm_response : Option ToolInput → PermResponse → PermPayload
unfolding is_empty
send_perm_response original resp =
    let input : Option ToolInput = elim resp.updated_input [ none ↦ original | some i ↦ some i ] in
    if resp.allow then allows input resp.permissions else denies (denial resp.message)

-- A control request of the CLI, and whether its subtype is `can_use_tool`.
pub record CtlRequest : Type 0 where
  pub asks_permission : Bool
  pub request : PermissionRequest

-- The id and the answer that are sent back, if any.
unfoldable pub handle_control_request :
    Option (PermissionRequest → PermResponse) → CtlRequest → Option (Text × PermPayload)
unfolding send_perm_response
handle_control_request handler req =
    let resp : PermResponse = elim handler [ none ↦ zero_response | some h ↦ h req.request ] in
    if req.asks_permission
    then some (req.request.request_id, send_perm_response req.request.input resp)
    else none

-- A line; `L` is a command_lifecycle frame, `R` a raw event and `E` any other event, each with its
-- session id.
pub data OutputLine (L R E : Type 0) : Type 0 where
  broken : OutputLine L R E
  control_response : CtlResponse → OutputLine L R E
  control_request : CtlRequest → OutputLine L R E
  stream_event : Text → R → OutputLine L R E
  command_lifecycle : Text → L → OutputLine L R E
  other_event : Bool → Text → E → OutputLine L R E  -- whether it is a result

pub data Routed (L R E : Type 0) : Type 0 where
  to_response : CtlResponse → Routed L R E
  to_request : CtlRequest → Routed L R E
  to_raw : R → Routed L R E
  to_lifecycle : L → Routed L R E
  to_event : E → Routed L R E

-- The channels of size one: a value is put in if there is none.
pub record Signals : Type 0 where
  pub session_id : Option Text
  pub turn_done : Bool

abbrev put_session_id : Text → Signals → Signals
put_session_id id s = elim s.session_id [
  | some _ ↦ s
  | none ↦ record s { session_id = if is_empty id then none else some id }
]

unfoldable pub route_line :
    {L R E : Type 0} → OutputLine L R E → Signals → Signals × List (Routed L R E)
unfolding is_empty
route_line broken s = (s, [])
route_line (control_response r) s = (s, to_response r ∷ [])
route_line (control_request r) s = (s, to_request r ∷ [])
route_line (stream_event id raw) s = (put_session_id id s, to_raw raw ∷ [])
route_line (command_lifecycle id ev) s = (put_session_id id s, to_lifecycle ev ∷ [])
route_line (other_event is_result id e) s = (
  record (put_session_id id s) { turn_done = if is_result then true else s.turn_done },
  to_event e ∷ [],
)

-- The lines until the output ends.
unfoldable pub scan :
    {L R E : Type 0} → List (OutputLine L R E) → Signals → Signals × List (Routed L R E)
unfolding route_line
scan [] s = (s, [])
scan (l ∷ ls) s =
    let (s1, now) = route_line l s in let (s2, later) = scan ls s1 in (s2, now ++ later)

-- The content of a user message.
pub data UserBlock : Type 0 where
  image_block : ImageData → UserBlock
  text_block : Text → UserBlock

pub data UserContent : Type 0 where
  text_content : Text → UserContent
  block_content : List UserBlock → UserContent

abbrev image_blocks : List ImageData → List UserBlock
image_blocks [] = []
image_blocks (i ∷ is) = image_block i ∷ image_blocks is

unfoldable pub user_content : Text → List ImageData → UserContent
unfolding is_empty
user_content text [] = text_content text
user_content text (i ∷ images) =
    block_content
      (image_blocks (i ∷ images) ++ (if is_empty text then [] else text_block text ∷ []))
