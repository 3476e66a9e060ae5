-- ===== src/Stream/Sections.antt =====
-- The sub-agent sections of the session model, pkg/monetdroid/model.go, and the table of sub-agents of
-- the session that handleStreamEvent of pkg/monetdroid/claude.go feeds it from.
use monetdroid.Prelude.{
  ◌≡◌, refl, ap, sym, ◌∙◌, Bool, true, false, not, ◌&&◌, ◌||◌, if◌then◌else◌, none, some, List, [],
  Text, arith, Bool-cases, Option-cases, inl, inr, is_empty, is_empty_iff, same, same_iff,
}
use monetdroid.Prelude.Maps.{Map, lookup, has, insert, lookup-insert}
use monetdroid.Types.{MsgType, ServerMsg}
use monetdroid.Session.Agents.{AgentTable}
use monetdroid.Session.Agents.Depth.{
  HasDepth, AgentOp, start, finish, mark, progress, runs_after, agent_step, agent_step-HasDepth,
  agent_step_runs,
}
use monetdroid.Model.{
  SessionModel, SubagentSection, started_section, finish_section, apply, apply_all, dispatch,
  on_tool_use, on_tool_result, link_message,
}
use monetdroid.Stream.Event.{StreamEvent, StreamSession, sent}
use monetdroid.Stream.{handle_all}
use monetdroid.Stream.Moves.{
  Moves, stays, tells, starts, announces, finishes, marks, reports, is_section, Told,
}
use monetdroid.Stream.Agents.{handle_all-Told}

-- Whether the section of the sub-agent is shown as running.
abbrev pub shown_running : Text → Map SubagentSection → Bool
shown_running id sections = elim (lookup id sections) [
  | none ↦ false
  | some section ↦ not section.finished
]

-- Every section with a nonempty id that is shown as running is of a sub-agent that the session counts.
abbrev pub Counted : AgentTable → SessionModel → Type 0
Counted t m =
    (id : Text)
    → is_empty id ≡ false
    → shown_running id m.subagent_sections ≡ true
    → has id t.agent_tool_ids ≡ true

link_message-sections :
    (msg : ServerMsg) (m : SessionModel)
    → (link_message msg m).subagent_sections ≡ m.subagent_sections
unfolding link_message
link_message-sections msg m = ground arith

-- Whether a section is shown as running after a message, by what the message says.
abbrev pub running_after : Text → Bool → MsgType → ServerMsg → Bool
running_after id b MsgType.subagent_started msg =
    b || (not (is_empty msg.agent_id) && same msg.agent_id id)
running_after id b MsgType.subagent_finished msg =
    b && not (not (is_empty msg.agent_id) && same msg.agent_id id)
running_after id b MsgType.session_started msg = false
running_after id b _ msg = b

shown_running-insert :
    (id j : Text) (v : SubagentSection) (m : Map SubagentSection)
    → shown_running j (insert id v m) ≡ (if same id j then not v.finished else shown_running j m)
shown_running-insert id j v m = ground (arith, lookup-insert id j v m)

finish_running :
    (id : Text) (msg : ServerMsg) (m : SessionModel)
    → is_empty msg.agent_id ≡ false
    → shown_running id (dispatch MsgType.subagent_finished msg m).subagent_sections
      ≡ (shown_running id m.subagent_sections && not (same msg.agent_id id))
unfolding dispatch
finish_running id msg m h = elim (Option-cases (lookup msg.agent_id m.subagent_sections)) [
  | inl e ↦ rw (dispatch, h, e) (ground (arith, same_iff msg.agent_id id))
  | inr (v, e) ↦
      rw (dispatch, h, e)
        (ground
          (arith, shown_running-insert msg.agent_id id (finish_section msg v) m.subagent_sections))
]

dispatch-running :
    (id : Text) (t : MsgType) (msg : ServerMsg) (m : SessionModel)
    → shown_running id (dispatch t msg m).subagent_sections
      ≡ running_after id (shown_running id m.subagent_sections) t msg
unfolding dispatch
dispatch-running id MsgType.tool_use msg m = unfold on_tool_use in ground arith
dispatch-running id MsgType.tool_result msg m = unfold on_tool_result in ground arith
dispatch-running id MsgType.session_started msg m = unfold lookup in refl
dispatch-running id MsgType.subagent_started msg m =
    ground (arith, shown_running-insert msg.agent_id id (started_section msg) m.subagent_sections)
dispatch-running id MsgType.subagent_finished msg m = elim (Bool-cases (is_empty msg.agent_id)) [
  | inl e ↦ rw e (ground arith)
  | inr e ↦ finish_running id msg m e ∙ rw e refl
]
dispatch-running id _ msg m = ground arith

apply-running :
    (id : Text) (m : SessionModel) (msg : ServerMsg)
    → shown_running id (apply m msg).subagent_sections
      ≡ running_after id (shown_running id m.subagent_sections) msg.msg_type msg
unfolding apply
apply-running id m msg =
    dispatch-running id msg.msg_type msg _
    ∙ ap (λ p. running_after id (shown_running id p) msg.msg_type msg) (link_message-sections msg _)

quiet_running :
    (id : Text) (b : Bool) (t : MsgType) (msg : ServerMsg)
    → is_section t ≡ false
    → running_after id b t msg ≡ true
    → b ≡ true
quiet_running id b MsgType.subagent_started msg h r = ground arith
quiet_running id b MsgType.subagent_finished msg h r = ground arith
quiet_running id b MsgType.session_started msg h r = ground arith
quiet_running id b _ msg h r = r

runs_after_mono :
    (id : Text) (a b : Bool) (op : AgentOp)
    → (a ≡ true → b ≡ true)
    → runs_after id a op ≡ true
    → runs_after id b op ≡ true
runs_after_mono id a b (start j d) h r = ground arith
runs_after_mono id a b (finish j) h r = ground arith
runs_after_mono id a b (mark j) h r = h r
runs_after_mono id a b (progress j u d l) h r = h r

apply-running_at :
    (id : Text) (m : SessionModel) (msg : ServerMsg) (t : MsgType)
    → msg.msg_type ≡ t
    → shown_running id (apply m msg).subagent_sections ≡ true
    → running_after id (shown_running id m.subagent_sections) t msg ≡ true
apply-running_at id m msg t h e =
    ap (λ t'. running_after id (shown_running id m.subagent_sections) t' msg) (sym h)
    ∙ sym (apply-running id m msg)
    ∙ e

-- A step of the table with a message that starts no run beyond it keeps the sections counted.
step-Counted :
    (t : AgentTable) (op : AgentOp) (m m' : SessionModel)
    → HasDepth t
    → ((id : Text)
        → is_empty id ≡ false
        → shown_running id m'.subagent_sections ≡ true
        → runs_after id (shown_running id m.subagent_sections) op ≡ true)
    → Counted t m
    → Counted (agent_step t op) m'
step-Counted t op m m' d h c id n r =
    agent_step_runs t op id d ∙ runs_after_mono id _ _ op (c id n) (h id n r)

Moves-Counted :
    {t u : AgentTable} {msgs : List ServerMsg}
    → Moves t msgs u
    → (m : SessionModel) → HasDepth t
    → Counted t m
    → HasDepth u × Counted u (apply_all m msgs)
unfolding apply_all agent_step
Moves-Counted stays m d c = (d, c)
Moves-Counted {t} (tells msg h r) m d c =
    Moves-Counted r (apply m msg) d
      λ id n e. c id n (quiet_running id _ msg.msg_type msg h (sym (apply-running id m msg) ∙ e))
Moves-Counted {t} (starts id description r) m d c =
    Moves-Counted r m (agent_step-HasDepth t (start id description) d)
      (step-Counted t (start id description) m m d (λ j n e. ground arith) c)
Moves-Counted {t} (announces description msg h r) m d c =
    Moves-Counted r (apply m msg) (agent_step-HasDepth t (start msg.agent_id description) d) (
      step-Counted t (start msg.agent_id description) m (apply m msg) d
        (λ j n e. ground (arith, apply-running_at j m msg _ h e)) c)
Moves-Counted {t} (finishes msg h r) m d c =
    Moves-Counted r (apply m msg) (agent_step-HasDepth t (finish msg.agent_id) d) (
      step-Counted t (finish msg.agent_id) m (apply m msg) d
        (λ j n e. ground (
          arith,
          apply-running_at j m msg _ h e,
          is_empty_iff msg.agent_id,
          same_iff msg.agent_id j,
        ))
        c)
Moves-Counted {t} (marks id r) m d c =
    Moves-Counted r m (agent_step-HasDepth t (mark id) d)
      (step-Counted t (mark id) m m d (λ j n e. e) c)
Moves-Counted {t} (reports id usage description last_tool r) m d c =
    Moves-Counted r m (agent_step-HasDepth t (progress id usage description last_tool) d)
      (step-Counted t (progress id usage description last_tool) m m d (λ j n e. e) c)

-- From a model without sections, after any messages of the CLI and all broadcasts they make: a
-- sub-agent with a nonempty id whose section is shown as running is among the agents that the
-- session counts as running.
pub handle_all-running :
    (s : StreamSession) (m : SessionModel) (es : List StreamEvent) (id : Text)
    → HasDepth s.agents
    → m.subagent_sections ≡ []
    → is_empty id ≡ false
    → shown_running id (apply_all m (sent (handle_all s es).actions)).subagent_sections ≡ true
    → has id (handle_all s es).session.agents.agent_tool_ids ≡ true
unfolding Told lookup
handle_all-running s m es id d none_shown n r =
    (Moves-Counted (handle_all-Told s es) m d
        (λ j n' r'. absurd (ground (arith, ap (shown_running j) none_shown)))).1
      id n r
