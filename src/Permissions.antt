-- ===== src/Permissions.antt =====
-- The permission requests of a session: `RegisterPermChan`, `DeletePermChan`, `HandlePermission`,
-- `RemovePermission` and `FindPermToolUseID` of pkg/monetdroid/session.go, and `handlePerm` of
-- pkg/monetdroid/handlers.go.
pub mod Waiting
mod Tests
use monetdroid.Prelude.{
  ℕ, zero, suc, ◌+◌, get_elem?, Bool, true, false, not, ◌&&◌, ◌||◌, if◌then◌else◌, Option, none,
  some, List, [], ◌∷◌, ◌++◌, Text, codes, same, is_empty, find, drop_first,
}
use monetdroid.Prelude.Maps.{Map, lookup, insert, delete}
use monetdroid.Prelude.Slots.{Slots, slot_of, put, drain}
use monetdroid.Types.{MsgType, ServerMsg, blank}
use monetdroid.Process.Scan.{PermissionRequest, PermResponse}

-- A handler that waits for room in a channel, to send its response.
pub record StuckAnswer : Type 0 where
  pub channel : ℕ
  pub perm_id : Text
  pub response : PermResponse

-- The channels of a session, each with a number of its own: `perm_chans` is the map of the session,
-- `contents` is what stands in a channel, and `asking` has the calls of HandlePermission that wait,
-- by their channels, each with the id of its request.
pub record PermTable : Type 0 where
  pub session_id : Text
  pub cwd : Text
  pub channels : ℕ  -- how many were made
  pub perm_chans : Map ℕ
  pub contents : Slots PermResponse
  pub asking : Slots Text
  pub stuck : List StuckAnswer
  pub log : List ServerMsg

abbrev permission_message : PermTable → PermissionRequest → ServerMsg
permission_message t req = record (blank MsgType.permission_request) {
  session_id = t.session_id;
  cwd = t.cwd;
  tool_use_id = req.tool_use_id;
  perm_id = req.request_id;
  perm_tool = req.tool_name;
  perm_input = req.input;
  perm_reason = req.decision_reason;
}

-- `HandlePermission` up to the receive; the broadcast puts the message into the log.
unfoldable pub ask_permission : PermTable → PermissionRequest → PermTable
unfolding insert put
ask_permission t req = record t {
  channels = t.channels + 1;
  perm_chans = insert req.request_id t.channels t.perm_chans;
  asking = put t.channels req.request_id t.asking;
  log = t.log ++ permission_message t req ∷ [];
}

-- The receive of the call with the channel, which waits while this is empty, and its
-- `DeletePermChan`.
unfoldable pub take_response : PermTable → ℕ → PermTable × Option PermResponse
unfolding slot_of drain delete
take_response t ch = elim (slot_of ch t.asking) [
  | none ↦ (t, none)
  | some id ↦ elim (slot_of ch t.contents) [
    | none ↦ (t, none)
    | some resp ↦ (
      record t {
        perm_chans = delete id t.perm_chans;
        contents = drain ch t.contents;
        asking = drain ch t.asking;
      },
      some resp,
    )
  ]
]

abbrev is_perm_request : MsgType → Bool
is_perm_request MsgType.permission_request = true
is_perm_request _ = false

abbrev is_request : Text → ServerMsg → Bool
is_request id m = is_perm_request m.msg_type && same m.perm_id id

unfoldable pub remove_permission : List ServerMsg → Text → List ServerMsg
remove_permission log id = drop_first (is_request id) log

-- A suggestion of the form: what it decodes to, if it does.
pub record PermSuggestion : Type 0 where
  pub sets_mode : Bool  -- `Type == "setMode"`
  pub mode : Text
  pub rule : Text

pub data PermOutcome : Type 0 where
  bad_suggestion : PermOutcome
  blocked : PermOutcome  -- the send waits for room in the channel
  shown : Text → PermOutcome  -- the tool whose permission is shown as answered

-- Whether `PermissionModeFromString` of pkg/claude/process.go knows the mode; it gives it back.
abbrev is_known_mode : Text → Bool
is_known_mode s = same s (codes "default") || same s (codes "acceptEdits") || same s (codes "auto")

-- The rules and the modes that are set on the way, up to a suggestion that is broken.
unfoldable pub note_suggestions : List (Option PermSuggestion) → List Text × List Text × Bool
unfolding is_empty same
note_suggestions [] = ([], [], true)
note_suggestions (none ∷ ss) = ([], [], false)
note_suggestions (some s ∷ ss) =
    let (perms, modes, fine) = note_suggestions ss in
    (
      (if s.sets_mode then perms else s.rule ∷ perms),
      (if s.sets_mode && not (is_empty s.mode) && is_known_mode s.mode
          then s.mode ∷ modes
          else modes),
      fine,
    )

abbrev mode_message : Text → Text → ServerMsg
mode_message session_id mode = record (blank MsgType.permission_mode) {
  session_id = session_id;
  perm_mode = mode;
}

abbrev mode_messages : Text → List Text → List ServerMsg
mode_messages session_id [] = []
mode_messages session_id (m ∷ ms) = mode_message session_id m ∷ mode_messages session_id ms

unfoldable pub find_perm_tool_use_id : List ServerMsg → Text → Text
find_perm_tool_use_id log id = elim (find (is_request id) log) [
  | none ↦ []
  | some m ↦ m.tool_use_id
]

-- The end of the handler.
abbrev show_answer : PermTable → Text → PermTable × PermOutcome
show_answer t id =
    (record t { log = remove_permission t.log id }, shown (find_perm_tool_use_id t.log id))

-- The send to a channel, and the end of the handler if there is room.
unfoldable pub send_response : PermTable → Text → PermResponse → ℕ → PermTable × PermOutcome
unfolding slot_of put
send_response t id resp ch = elim (slot_of ch t.contents) [
  | none ↦ show_answer (record t { contents = put ch resp t.contents }) id
  | some _ ↦ (
    record t { stuck = t.stuck ++ record { channel = ch; perm_id = id; response = resp } ∷ [] },
    blocked,
  )
]

abbrev pub drop_at {ℓ} : {A : Type ℓ} → ℕ → List A → List A
drop_at i [] = []
drop_at zero (x ∷ xs) = xs
drop_at (suc i) (x ∷ xs) = x ∷ drop_at i xs

-- The rest of a handler that has waited for room, once there is some.
unfoldable pub resume_answer : PermTable → ℕ → PermTable
unfolding slot_of put
resume_answer t i = elim (get_elem? t.stuck i) [
  | none ↦ t
  | some s ↦ elim (slot_of s.channel t.contents) [
    | some _ ↦ t
    | none ↦
        (show_answer
          (record t { contents = put s.channel s.response t.contents; stuck = drop_at i t.stuck })
          s.perm_id).0
  ]
]

-- What `handlePerm` does; it shows the answer also if nobody waits for it.
unfoldable pub handle_perm :
    PermTable → Text → Bool → List (Option PermSuggestion) → Text → PermTable × PermOutcome
unfolding lookup send_response remove_permission find_perm_tool_use_id note_suggestions
handle_perm t id allow suggestions message =
    let (perms, modes, fine) = note_suggestions suggestions in
    let t1 : PermTable = record t { log = t.log ++ mode_messages t.session_id modes } in
    let resp : PermResponse = record {
      allow = allow;
      permissions = perms;
      updated_input = none;
      message = message;
    } in
    elim (lookup id t.perm_chans) [
      | none ↦ show_answer t id
      | some ch ↦ if fine then send_response t1 id resp ch else (t1, bad_suggestion)
    ]
