-- ===== src/Editing.antt =====
-- Editing a message that was sent: `findUserMessage` and `handleEditResend` of
-- pkg/monetdroid/handlers.go. What the claude process answers to each request is an argument.
pub mod Rewinds
pub mod Locations
pub mod Queued
pub mod Cancel
mod Tests
use monetdroid.Prelude.{
  Bool, true, false, not, ◌&&◌, ◌||◌, if◌then◌else◌, Option, none, some, List, [], ◌∷◌, ◌++◌, map,
  Text, codes, same, is_empty,
}
use monetdroid.Types.{MsgType, ServerMsg, CostInfo, DiffStat, trim_space}
use monetdroid.Session.Chain.{Chain, mem, active_set, set_tip}
use monetdroid.Session.Queue.{QueueEntry, Pending, Effect, broadcast, push_queue_bar, remove_queued}
use monetdroid.Session.Sending.{Labels, Sender, SendResult, error_message, send_message}
use monetdroid.Model.{SessionModel, ModelBase, can_interrupt, build_model}
use monetdroid.Process.{Answer, answered, failed, RequestError}

pub record UserMsgLoc : Type 0 where
  pub msg : ServerMsg
  pub later_user_uuids : List Text
  pub rewindable : Bool

abbrev is_user_message : MsgType → Bool
is_user_message MsgType.user_message = true
is_user_message _ = false

abbrev is_answer : MsgType → Bool
is_answer MsgType.text = true
is_answer MsgType.thinking = true
is_answer MsgType.tool_use = true
is_answer MsgType.tool_result = true
is_answer _ = false

abbrev pub is_user_of_main : ServerMsg → Bool
is_user_of_main m = is_user_message m.msg_type && is_empty m.agent_id

-- The last loop.
abbrev later_user_uuids_of : List Text → List ServerMsg → List Text
later_user_uuids_of active [] = []
later_user_uuids_of active (m ∷ log) =
    let rest = later_user_uuids_of active log in
    if is_user_of_main m && mem m.uuid active then m.uuid ∷ rest else rest

abbrev is_active_answer : List Text → ServerMsg → Bool
is_active_answer active m = is_empty m.agent_id && mem m.uuid active && is_answer m.msg_type

-- The three loops in one, with what the messages so far say of `rewindable`.
abbrev find_from : List Text → Text → Bool → List ServerMsg → Option UserMsgLoc
find_from active uuid rewindable [] = none
find_from active uuid rewindable (m ∷ log) =
    let rest = find_from active uuid (rewindable || is_active_answer active m) log in
    if is_user_of_main m && same m.uuid uuid
    then some (record {
      msg = m;
      later_user_uuids = later_user_uuids_of active log;
      rewindable = rewindable;
    })
    else rest

unfoldable pub find_user_message : List ServerMsg → Text → List Text → Option UserMsgLoc
unfolding same is_empty
find_user_message log uuid active =
    if mem uuid active then find_from active uuid false log else none

-- What the claude process answers: to a rewind, which may depend on the ones before it, to the
-- cancelling of a queued message and to a message that is sent. `has_process` is what
-- `ensureProcess` says when the edited message is sent, and `is_busy` what `IsBusy` does.
pub record Claude : Type 0 where
  pub is_alive : Bool
  pub rewind : List Text → Text → Answer (Text × Text)
  pub cancel : Text → Answer Bool
  pub has_process : Bool
  pub is_busy : Bool
  pub send : SendResult
  pub error_text : RequestError → Text

-- The fields of a session that the handler reads or changes.
pub record EditSession : Type 0 where
  pub sender : Sender
  pub log : List ServerMsg
  pub model : Option SessionModel
  pub cwd : Text
  pub perm_mode : Text
  pub cost : CostInfo
  pub diff_stat : DiffStat

-- The requests to the claude process and what the browsers are sent.
pub data EditAction : Type 0 where
  rewinds : Text → Bool → EditAction  -- whether the process has rewound
  cancels : Text → EditAction
  says : ServerMsg → EditAction
  shows_queue_bar closes_session redirects : EditAction
  renders : SessionModel → EditAction

-- A broadcast puts the message at the end of the session's log.
abbrev tell : EditSession → Text → EditSession
tell s e = record s { log = s.log ++ error_message s.sender.pending.session_id e ∷ [] }

abbrev told : EditSession → Text → EditAction
told s e = says (error_message s.sender.pending.session_id e)

-- An edit that is refused leaves the session but for the error in its log.
abbrev refuse : EditSession → Text → Option EditSession × List EditAction
refuse s e = (some (tell s e), told s e ∷ [])

-- `abandon`, behind the error of a rewind.
abbrev abandon : EditSession → Text → Option EditSession × List EditAction
abandon s e = (none, told s e ∷ closes_session ∷ redirects ∷ [])

abbrev with_queue : EditSession → List QueueEntry → EditSession
with_queue s q = record s {
  sender = record s.sender { pending = record s.sender.pending { queue = q } };
}

abbrev remove_from : EditSession → Text → EditSession
remove_from s uuid = with_queue s (remove_queued s.sender.pending.queue uuid)

abbrev cancel_error : Claude → RequestError → Text
cancel_error c e = codes "cancel queued message: " ++ c.error_text e

-- The loop over the queued entries.
unfoldable pub cancel_queued :
    Claude → EditSession → List QueueEntry → EditSession × List EditAction
unfolding remove_queued
cancel_queued c s [] = (s, [])
cancel_queued c s (e ∷ es) = elim (c.cancel e.uuid) [
  | failed err ↦
      let (s1, acts) = cancel_queued c (tell s (cancel_error c err)) es in
      (s1, cancels e.uuid ∷ told s (cancel_error c err) ∷ acts)
  | answered cancelled ↦
      let (s1, acts) = cancel_queued c (if cancelled then remove_from s e.uuid else s) es in
      (s1, cancels e.uuid ∷ acts)
]

unfoldable pub edit_base : EditSession → ModelBase
edit_base s = record {
  cwd = s.cwd;
  label = s.sender.labels.label;
  auto_label = false;
  perm_mode = s.perm_mode;
  cost = s.cost;
  diff_stat = s.diff_stat;
  tip = s.sender.pending.chain.tip;
  line_parents = s.sender.pending.chain.line_parents;
  process_alive = true;
}

abbrev logged : List Effect → List ServerMsg
logged [] = []
logged (broadcast m ∷ es) = m ∷ logged es
logged (push_queue_bar ∷ es) = logged es

abbrev action_of : Effect → EditAction
action_of (broadcast m) = says m
action_of push_queue_bar = shows_queue_bar

abbrev move_tip : EditSession → Text → EditSession
move_tip s tip = record s {
  sender = record s.sender {
    pending = record s.sender.pending { chain = set_tip s.sender.pending.chain tip };
  };
}

-- What follows the rewinds: the queue is cancelled, the tip goes to the branch point, the model is
-- built anew, and the edited text is sent under a uuid that is minted.
unfoldable pub resend : Claude → EditSession → Text → Text → Text → EditSession × List EditAction
unfolding set_tip send_message build_model edit_base cancel_queued
resend c s tip text new_uuid =
    let (s1, acts) = cancel_queued c s s.sender.pending.queue in
    let s2 = move_tip s1 tip in
    let m = build_model (edit_base s2) s2.log s2.sender.pending.session_id in
    let (sent, out) = send_message c.has_process c.is_busy c.send new_uuid text [] s2.sender in
    (
      record s2 { sender = sent; log = s2.log ++ logged out; model = some m },
      acts ++ shows_queue_bar ∷ renders m ∷ map action_of out,
    )

abbrev behind {ℓ} : {A : Type ℓ} → List EditAction → A × List EditAction → A × List EditAction
behind acts (a, later) = (a, acts ++ later)

-- The rewinds, newest first, the edited message last; the ones done so far are told to the process.
unfoldable pub rewind_all :
    Claude
    → EditSession
    → Text
    → Text
    → List Text
    → List Text
    → Text
    → Option EditSession × List EditAction
unfolding resend
rewind_all c s text new_uuid done [] target = elim (c.rewind done target) [
  | failed e ↦ behind (rewinds target false ∷ []) (abandon s (c.error_text e))
  | answered result ↦
      let (s1, acts) = resend c s result.0 text new_uuid in (some s1, rewinds target true ∷ acts)
]
rewind_all c s text new_uuid done (u ∷ us) target = elim (c.rewind done u) [
  | failed e ↦ behind (rewinds u false ∷ []) (abandon s (c.error_text e))
  | answered _ ↦
      behind (rewinds u true ∷ []) (rewind_all c s text new_uuid (done ++ u ∷ []) us target)
]

-- `slices.Backward`.
abbrev pub backward {ℓ} : {A : Type ℓ} → List A → List A
backward [] = []
backward (x ∷ xs) = backward xs ++ x ∷ []

abbrev is_active_model : Option SessionModel → Bool
is_active_model none = false
is_active_model (some m) = can_interrupt m

-- The active branch of the session.
abbrev pub active_of : EditSession → List Text
active_of s =
    let c = s.sender.pending.chain in
    elim (active_set c.line_parents c.tip) [ none ↦ [] | some active ↦ active ]

abbrev edit_found :
    Claude → EditSession → Text → Text → Text → UserMsgLoc → Option EditSession × List EditAction
edit_found c s uuid text new_uuid loc =
    let all = rewind_all c s text new_uuid [] (backward loc.later_user_uuids) uuid in
    if is_empty (trim_space text)
    then refuse s (codes "cannot send an empty edit")
    else if not c.is_alive
    then refuse s (codes "cannot edit while the claude process is not running")
    else if is_active_model s.model
    then refuse s (codes "cannot edit while the session is active")
    else if not loc.rewindable
    then refuse s (codes "cannot edit the first message of a conversation")
    else all

-- The session, unless it was dropped from memory, and what was done.
unfoldable pub handle_edit_resend :
    Claude → EditSession → Text → Text → Text → Option EditSession × List EditAction
unfolding is_empty trim_space can_interrupt rewind_all find_user_message active_set
handle_edit_resend c s uuid text new_uuid = elim (find_user_message s.log uuid (active_of s)) [
  | none ↦ (some s, [])
  | some loc ↦ edit_found c s uuid text new_uuid loc
]
