-- ===== src/Model/Mirror.antt =====
-- The session model against the parts of the session that it mirrors: the active chain and the task
-- list of pkg/monetdroid/session.go, and the background tasks of pkg/monetdroid/bgtask.go.
use monetdroid.Prelude.{
  ◌≡◌, ◌≢◌, refl, sym, ap, ◌∙◌, Bool, true, false, not, ◌||◌, if◌then◌else◌, Option, none, some,
  List, [], ◌∷◌, ◌++◌, Text, same_iff, is_empty, is_empty_iff, any, arith, Bool-cases, inl, inr,
}
use monetdroid.Prelude.Maps.{Map, lookup, insert, get_or, lookup-insert}
use monetdroid.Types.{MsgType, ServerMsg}
use monetdroid.Session.Chain.{Chain, advance_tip}
use monetdroid.BgTask.{BgScan, bash_command, scan_message, scan_log, empty_scan, derive_bg_tasks}
use monetdroid.Model.{
  SessionModel, ModelBase, initial_model, build_model, apply, apply_all, dispatch, on_tool_use,
  on_tool_result, link_message,
}

abbrev pub chain_of : SessionModel → Chain
chain_of m = record { tip = m.tip; line_parents = m.line_parents }

on_tool_use-chain : (msg : ServerMsg) (m : SessionModel) → chain_of (on_tool_use msg m) ≡ chain_of m
unfolding on_tool_use
on_tool_use-chain msg m = elim (Bool-cases (is_empty msg.tool_use_id)) [
  | inl e ↦ rw e refl
  | inr e ↦ rw e refl
]

on_tool_result-chain :
    (msg : ServerMsg) (m : SessionModel) → chain_of (on_tool_result msg m) ≡ chain_of m
unfolding on_tool_result
on_tool_result-chain msg m = ground arith

dispatch-chain :
    (t : MsgType) (msg : ServerMsg) (m : SessionModel) → chain_of (dispatch t msg m) ≡ chain_of m
unfolding dispatch
dispatch-chain MsgType.tool_use msg m = on_tool_use-chain msg m
dispatch-chain MsgType.tool_result msg m = on_tool_result-chain msg m
dispatch-chain _ msg m = ground arith

link_message-chain :
    (msg : ServerMsg) (m : SessionModel)
    → chain_of (link_message msg m) ≡ (
        if m.folding || not (is_empty msg.agent_id)
        then chain_of m
        else advance_tip (chain_of m) msg.uuid)
unfolding link_message advance_tip
link_message-chain msg m = ground arith

-- A live message of the main timeline moves the model's chain as `AdvanceTip` moves the session's;
-- one of a sub-agent, and any message that is folded from the log, leaves the chain as it is.
apply-chain :
    (m : SessionModel) (msg : ServerMsg)
    → chain_of (apply m msg) ≡ (
        if m.folding || not (is_empty msg.agent_id)
        then chain_of m
        else advance_tip (chain_of m) msg.uuid)
unfolding apply
apply-chain m msg =
    dispatch-chain msg.msg_type msg _
    ∙ link_message-chain msg (record m { messages = m.messages ++ msg ∷ [] })

-- The model's background tasks and those of the scan, halfway through the same log.
record Agrees (m : SessionModel) (s : BgScan) : Type 0 where
  same_tasks : m.bg_tasks ≡ s.bg
  same_commands : (id : Text) → id ≢ [] → lookup id m.pending_commands ≡ lookup id s.commands

abbrev pub is_start : MsgType → Bool
is_start MsgType.session_started = true
is_start _ = false

link_message-bg : (msg : ServerMsg) (m : SessionModel) → (link_message msg m).bg_tasks ≡ m.bg_tasks
unfolding link_message
link_message-bg msg m = ground arith

link_message-commands :
    (msg : ServerMsg) (m : SessionModel)
    → (link_message msg m).pending_commands ≡ m.pending_commands
unfolding link_message
link_message-commands msg m = ground arith

on_tool_use-bg : (msg : ServerMsg) (m : SessionModel) → (on_tool_use msg m).bg_tasks ≡ m.bg_tasks
unfolding on_tool_use
on_tool_use-bg msg m = elim (Bool-cases (is_empty msg.tool_use_id)) [
  | inl e ↦ rw e refl
  | inr e ↦ rw e refl
]

abbrev record_command : Option Text → Text → BgScan → BgScan
record_command c k s = elim c [
  | none ↦ s
  | some cmd ↦ record s { commands = insert k cmd s.commands }
]

lookup-record_command :
    (c : Option Text) (id k : Text) (p : Map Text) (s : BgScan)
    → lookup id p ≡ lookup id s.commands
    → lookup id (elim c [ none ↦ p | some cmd ↦ insert k cmd p ])
      ≡ lookup id (record_command c k s).commands
lookup-record_command none id k p s e = e
lookup-record_command (some cmd) id k p s e =
    ground (arith, lookup-insert k id cmd p, lookup-insert k id cmd s.commands)

lookup-record_command_empty :
    (c : Option Text) (id k : Text) (p : Map Text) (s : BgScan)
    → id ≢ []
    → is_empty k ≡ true
    → lookup id p ≡ lookup id s.commands
    → lookup id p ≡ lookup id (record_command c k s).commands
lookup-record_command_empty none id k p s h f e = e
lookup-record_command_empty (some cmd) id k p s h f e =
    ground (arith, lookup-insert k id cmd s.commands, same_iff k id, is_empty_iff k)

on_tool_use-commands :
    (id : Text) (msg : ServerMsg) (m : SessionModel) (s : BgScan)
    → id ≢ []
    → lookup id m.pending_commands ≡ lookup id s.commands
    → lookup id (on_tool_use msg m).pending_commands
      ≡ lookup id (scan_message MsgType.tool_use msg s).commands
unfolding on_tool_use scan_message
on_tool_use-commands id msg m s h e = elim (Bool-cases (is_empty msg.tool_use_id)) [
  | inl f ↦
      rw f (
        lookup-record_command_empty (bash_command msg) id msg.tool_use_id m.pending_commands s h f
          e)
  | inr f ↦
      rw f (lookup-record_command (bash_command msg) id msg.tool_use_id m.pending_commands s e)
]

on_tool_use-scan : (msg : ServerMsg) (s : BgScan) → (scan_message MsgType.tool_use msg s).bg ≡ s.bg
unfolding scan_message
on_tool_use-scan msg s = ground arith

on_tool_result-bg :
    (msg : ServerMsg) (m : SessionModel) (s : BgScan)
    → Agrees m s
    → (on_tool_result msg m).bg_tasks ≡ (scan_message MsgType.tool_result msg s).bg
unfolding on_tool_result scan_message get_or
on_tool_result-bg msg m s h =
    ground (arith, h.same_tasks, h.same_commands msg.tool_use_id, is_empty_iff msg.tool_use_id)

on_tool_result-commands :
    (msg : ServerMsg) (m : SessionModel)
    → (on_tool_result msg m).pending_commands ≡ m.pending_commands
unfolding on_tool_result
on_tool_result-commands msg m = ground arith

scan_result-commands :
    (msg : ServerMsg) (s : BgScan) → (scan_message MsgType.tool_result msg s).commands ≡ s.commands
unfolding scan_message
scan_result-commands msg s = ground arith

dispatch-Agrees :
    (t : MsgType) (msg : ServerMsg) (m : SessionModel) (s : BgScan)
    → is_start t ≡ false
    → Agrees m s
    → Agrees (dispatch t msg m) (scan_message t msg s)
unfolding dispatch scan_message
dispatch-Agrees MsgType.tool_use msg m s _ h = record {
  same_tasks = on_tool_use-bg msg m ∙ h.same_tasks ∙ sym (on_tool_use-scan msg s);
  same_commands = λ id k. on_tool_use-commands id msg m s k (h.same_commands id k);
}
dispatch-Agrees MsgType.tool_result msg m s _ h = record {
  same_tasks = on_tool_result-bg msg m s h;
  same_commands = λ id k.
      ap (lookup id) (on_tool_result-commands msg m)
      ∙ h.same_commands id k
      ∙ ap (lookup id) (sym (scan_result-commands msg s));
}
dispatch-Agrees MsgType.task_done msg m s _ h = record {
  same_tasks = ground (arith, h.same_tasks);
  same_commands = λ id k. ground (arith, h.same_commands id k);
}
dispatch-Agrees _ msg m s e h = record {
  same_tasks = ground (arith, h.same_tasks);
  same_commands = λ id k. ground (arith, h.same_commands id k);
}

apply-Agrees :
    (msg : ServerMsg) (m : SessionModel) (s : BgScan)
    → is_start msg.msg_type ≡ false
    → Agrees m s
    → Agrees (apply m msg) (scan_message msg.msg_type msg s)
unfolding apply
apply-Agrees msg m s e h = dispatch-Agrees msg.msg_type msg _ s e (record {
  same_tasks = link_message-bg msg _ ∙ h.same_tasks;
  same_commands = λ id k. ap (lookup id) (link_message-commands msg _) ∙ h.same_commands id k;
})

apply_all-Agrees :
    (log : List ServerMsg) (m : SessionModel) (s : BgScan)
    → any (λ msg. is_start msg.msg_type) log ≡ false
    → Agrees m s
    → Agrees (apply_all m log) (scan_log s log)
unfolding apply_all scan_log
apply_all-Agrees [] m s e h = h
apply_all-Agrees (msg ∷ log) m s e h =
    apply_all-Agrees log (apply m msg) _ (ground (arith)) (apply-Agrees msg m s (ground (arith)) h)

-- Over a log in which no process starts, the model that is folded from it holds the background
-- tasks that the scan of the log derives.
pub build_model-derive_bg_tasks :
    (base : ModelBase) (log : List ServerMsg) (id : Text)
    → any (λ msg. is_start msg.msg_type) log ≡ false
    → (build_model base log id).bg_tasks ≡ derive_bg_tasks log
unfolding build_model initial_model derive_bg_tasks
build_model-derive_bg_tasks base log id e =
    (apply_all-Agrees log (initial_model base id) empty_scan e
      (record { same_tasks = refl; same_commands = λ _ _. refl })).same_tasks
