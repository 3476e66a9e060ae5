-- ===== src/Stream/Moves.antt =====
-- What handleStreamEvent of pkg/monetdroid/claude.go does to the sub-agents of a session, as moves: a
-- change of the table with the broadcast that tells of it, or one of them alone.
use monetdroid.Prelude.{
  ◌≡◌, refl, ap, Bool, true, false, not, ◌&&◌, Option, List, [], ◌∷◌, ◌++◌, Text, arith,
}
use monetdroid.Types.{MsgType, ServerMsg}
use monetdroid.Session.Agents.{
  AgentTable, TaskUsage, start_agent, finish_agent, mark_agent_background, update_agent_stat,
}
use monetdroid.Stream.Event.{
  StreamBlock, StreamSession, Action, sends, Done, and_then, each_block, sent, does,
}

-- Whether a message opens or closes the section of a sub-agent.
abbrev pub is_section : MsgType → Bool
is_section MsgType.subagent_started = true
is_section MsgType.subagent_finished = true
is_section _ = false

-- A table before, the messages, the table after.
pub data Moves : AgentTable → List ServerMsg → AgentTable → Type 0 where
  stays : {t : AgentTable} → Moves t [] t
  tells :
      {t u : AgentTable} {msgs : List ServerMsg} (msg : ServerMsg)
      → is_section msg.msg_type ≡ false
      → Moves t msgs u
      → Moves t (msg ∷ msgs) u
  starts :
      {t u : AgentTable} {msgs : List ServerMsg} (id description : Text)
      → Moves (start_agent t id description) msgs u
      → Moves t msgs u
  announces :
      {t u : AgentTable} {msgs : List ServerMsg} (description : Text) (msg : ServerMsg)
      → msg.msg_type ≡ MsgType.subagent_started
      → Moves (start_agent t msg.agent_id description) msgs u
      → Moves t (msg ∷ msgs) u
  finishes :
      {t u : AgentTable} {msgs : List ServerMsg} (msg : ServerMsg)
      → msg.msg_type ≡ MsgType.subagent_finished
      → Moves (finish_agent t msg.agent_id) msgs u
      → Moves t (msg ∷ msgs) u
  marks :
      {t u : AgentTable} {msgs : List ServerMsg} (id : Text)
      → Moves (mark_agent_background t id) msgs u
      → Moves t msgs u
  reports :
      {t u : AgentTable} {msgs : List ServerMsg} (id : Text) (usage : Option TaskUsage)
      (description last_tool : Text)
      → Moves (update_agent_stat t id usage description last_tool) msgs u
      → Moves t msgs u

pub Moves-append :
    {t u v : AgentTable} {xs ys : List ServerMsg}
    → Moves t xs u
    → Moves u ys v
    → Moves t (xs ++ ys) v
Moves-append stays k = k
Moves-append (tells msg h r) k = tells msg h (Moves-append r k)
Moves-append (starts id d r) k = starts id d (Moves-append r k)
Moves-append (announces d msg h r) k = announces d msg h (Moves-append r k)
Moves-append (finishes msg h r) k = finishes msg h (Moves-append r k)
Moves-append (marks id r) k = marks id (Moves-append r k)
Moves-append (reports id u d l r) k = reports id u d l (Moves-append r k)

pub sent-append : (xs ys : List Action) → sent (xs ++ ys) ≡ sent xs ++ sent ys
sent-append [] ys = refl
sent-append (sends msg ∷ xs) ys = ap (◌∷◌ msg) (sent-append xs ys)
sent-append (_ ∷ xs) ys = sent-append xs ys

-- What holds of every call on a block, of doing nothing, and of two calls if of each, holds of the
-- loop.
pub each_block-all :
    (R : StreamSession → Done → Type 0)
    → ((s : StreamSession) → R s (does s []))
    → ((s : StreamSession) (d : Done) (f : StreamSession → Done)
        → R s d
        → R d.session (f d.session)
        → R s (and_then d f))
    → (f : StreamSession → StreamBlock → Done)
    → ((s : StreamSession) (b : StreamBlock) → R s (f s b))
    → (s : StreamSession) (bs : List StreamBlock) → R s (each_block f s bs)
unfolding each_block
each_block-all R nothing both f h s [] = nothing s
each_block-all R nothing both f h s (b ∷ bs) =
    both s (f s b) (λ s'. each_block f s' bs) (h s b)
      (each_block-all R nothing both f h (f s b).session bs)

-- A call on a session does moves.
unfoldable pub Told : StreamSession → Done → Type 0
Told s d = Moves s.agents (sent d.actions) d.session.agents

pub and_then-Told :
    (s : StreamSession) (d : Done) (f : StreamSession → Done)
    → Told s d
    → Told d.session (f d.session)
    → Told s (and_then d f)
unfolding Told
and_then-Told s d f h k = rw (sent-append d.actions (f d.session).actions) (Moves-append h k)

pub each_block-Told :
    (f : StreamSession → StreamBlock → Done)
    → ((s : StreamSession) (b : StreamBlock) → Told s (f s b))
    → (s : StreamSession) (bs : List StreamBlock) → Told s (each_block f s bs)
each_block-Told = each_block-all Told (λ s. unfold Told in stays) and_then-Told

abbrev pub no_section : List ServerMsg → Bool
no_section [] = true
no_section (msg ∷ msgs) = not (is_section msg.msg_type) && no_section msgs

no_section-Moves :
    (t : AgentTable) (msgs : List ServerMsg) → no_section msgs ≡ true → Moves t msgs t
no_section-Moves t [] h = stays
no_section-Moves t (msg ∷ msgs) h =
    tells msg (ground arith) (no_section-Moves t msgs (ground arith))

-- A call that leaves the sub-agents alone.
pub quiet-Told :
    (s : StreamSession) (d : Done)
    → (d.session.agents ≡ s.agents) × (no_section (sent d.actions) ≡ true)
    → Told s d
unfolding Told
quiet-Told s d (e, h) = rw e (no_section-Moves s.agents (sent d.actions) h)

pub Told-from : (s s' : StreamSession) (d : Done) → s.agents ≡ s'.agents → Told s' d → Told s d
unfolding Told
Told-from s s' d e h = rw e h
