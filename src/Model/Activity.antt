-- ===== src/Model/Activity.antt =====
-- What a session model says of activity and of open permissions, pkg/monetdroid/model.go.
use monetdroid.Prelude.{
  ◌≡◌, ◌≢◌, refl, ap, ◌∙◌, Bool, true, not, ◌&&◌, if◌then◌else◌, Option, none, some, List, [], ◌∷◌,
  Text, codes, same, same_iff, is_empty, is_empty_iff, arith, Bool-cases, inl, inr,
}
use monetdroid.Prelude.Maps.{lookup, lookup-insert, lookup-delete}
use monetdroid.Types.{MsgType, ServerMsg}
use monetdroid.Model.{
  SessionModel, has_activity, can_interrupt, apply, apply_all, dispatch, on_tool_use,
  on_tool_result, link_message,
}

-- A session that can be interrupted has activity.
can_interrupt-has_activity : (m : SessionModel) → can_interrupt m ≡ true → has_activity m ≡ true
unfolding has_activity can_interrupt
can_interrupt-has_activity m h = ground arith

abbrev is_question : ServerMsg → Bool
is_question msg = same msg.perm_tool (codes "AskUserQuestion")

-- The permission request that is open for a tool_use, after a message, by what the message says.
abbrev pub open_request : Text → Option ServerMsg → MsgType → ServerMsg → Option ServerMsg
open_request id before MsgType.permission_request msg =
    if same msg.tool_use_id id && not (is_question msg) then some msg else before
open_request id before MsgType.tool_result msg = if same msg.tool_use_id id then none else before
open_request id before MsgType.session_started msg = none
open_request id before _ msg = before

abbrev pub open_request_after : Text → Option ServerMsg → List ServerMsg → Option ServerMsg
open_request_after id before [] = before
open_request_after id before (msg ∷ log) =
    open_request_after id (open_request id before msg.msg_type msg) log

link_message-pending :
    (msg : ServerMsg) (m : SessionModel) → (link_message msg m).pending_perms ≡ m.pending_perms
unfolding link_message
link_message-pending msg m = ground arith

on_tool_use-pending :
    (msg : ServerMsg) (m : SessionModel) → (on_tool_use msg m).pending_perms ≡ m.pending_perms
unfolding on_tool_use
on_tool_use-pending msg m = elim (Bool-cases (is_empty msg.tool_use_id)) [
  | inl e ↦ rw e refl
  | inr e ↦ rw e refl
]

on_tool_result-pending :
    (id : Text) (msg : ServerMsg) (m : SessionModel)
    → id ≢ []
    → lookup id (on_tool_result msg m).pending_perms
      ≡ (if same msg.tool_use_id id then none else lookup id m.pending_perms)
unfolding on_tool_result
on_tool_result-pending id msg m h = ground (
  arith,
  lookup-delete msg.tool_use_id id m.pending_perms,
  same_iff msg.tool_use_id id,
  is_empty_iff msg.tool_use_id,
)

dispatch-pending :
    (id : Text) (t : MsgType) (msg : ServerMsg) (m : SessionModel)
    → id ≢ []
    → lookup id (dispatch t msg m).pending_perms ≡ open_request id (lookup id m.pending_perms) t msg
unfolding dispatch
dispatch-pending id MsgType.tool_use msg m h = ap (lookup id) (on_tool_use-pending msg m)
dispatch-pending id MsgType.tool_result msg m h = on_tool_result-pending id msg m h
dispatch-pending id MsgType.session_started msg m h = unfold lookup in refl
dispatch-pending id MsgType.permission_request msg m h = ground (
  arith,
  lookup-insert msg.tool_use_id id msg m.pending_perms,
  same_iff msg.tool_use_id id,
  is_empty_iff msg.tool_use_id,
)
dispatch-pending id _ msg m h = ground arith

apply-pending :
    (id : Text) (m : SessionModel) (msg : ServerMsg)
    → id ≢ []
    → lookup id (apply m msg).pending_perms
      ≡ open_request id (lookup id m.pending_perms) msg.msg_type msg
unfolding apply
apply-pending id m msg h =
    dispatch-pending id msg.msg_type msg _ h
    ∙ ap (λ p. open_request id (lookup id p) msg.msg_type msg) (link_message-pending msg _)

-- The permission request that a model holds for a nonempty tool_use id after any messages is the
-- last one that was made for it and was no question, if since then neither a result of the
-- tool_use arrived nor a process started; without such a request it is the one held before, under
-- the same condition.
pub apply_all-pending :
    (id : Text) (m : SessionModel) (log : List ServerMsg)
    → id ≢ []
    → lookup id (apply_all m log).pending_perms
      ≡ open_request_after id (lookup id m.pending_perms) log
unfolding apply_all
apply_all-pending id m [] h = refl
apply_all-pending id m (msg ∷ log) h =
    apply_all-pending id (apply m msg) log h
    ∙ ap (λ b. open_request_after id b log) (apply-pending id m msg h)
