-- ===== src/Stream/Answers.antt =====
-- That handleStreamEvent of pkg/monetdroid/claude.go answers each result of the main conversation.
use monetdroid.Prelude.{
  ◌≡◌, refl, ap, sym, ◌∙◌, Bool, true, false, if◌then◌else◌, none, some, List, [], ◌∷◌, ◌++◌, Text,
  codes, arith, Bool-cases, Option-cases, inl, inr, is_empty, same, same_iff, append-nil,
  append_assoc,
}
use monetdroid.Prelude.Maps.{lookup, get_or, lookup-insert}
use monetdroid.Types.{MsgType, ServerMsg}
use monetdroid.Session.Agents.{AgentTable, complete, change_stat, get_agent_stat, finish_agent}
use monetdroid.Stream.Event.{
  EventType, BlockType, StreamBlock, StreamEvent, StreamSession, each_block, sent, parent_id,
}
use monetdroid.Stream.Blocks.{parent_user_block, remove_suppressed, plain_result}
use monetdroid.Stream.System.{close_bg_stop}
use monetdroid.Stream.{
  note_completed, parent_user, dispatch_event, at_tip, line_uuid, handle_stream_event,
}
use monetdroid.Stream.Notification.{notifications}
use monetdroid.Stream.Moves.{sent-append}

-- The tool_use that a message is the answer of.
abbrev answer_of : MsgType → ServerMsg → List Text
answer_of MsgType.tool_result msg = msg.tool_use_id ∷ []
answer_of MsgType.subagent_finished msg = msg.agent_id ∷ []
answer_of _ msg = []

abbrev pub answers : List ServerMsg → List Text
answers [] = []
answers (msg ∷ msgs) = answer_of msg.msg_type msg ++ answers msgs

abbrev pub in_background : AgentTable → Text → Bool
in_background t id = elim (get_agent_stat t id) [ none ↦ false | some stat ↦ stat.background ]

abbrev awaited_of : AgentTable → BlockType → Text → List Text
awaited_of t BlockType.tool_result id = if in_background t id then [] else id ∷ []
awaited_of t _ id = []

-- The tool_uses whose results stand in the blocks, but for agents that run in the background.
abbrev pub awaited : AgentTable → List StreamBlock → List Text
awaited t [] = []
awaited t (b ∷ bs) = awaited_of t b.block_type b.tool_use_id ++ awaited t bs

answers-append : (xs ys : List ServerMsg) → answers (xs ++ ys) ≡ answers xs ++ answers ys
answers-append [] ys = refl
answers-append (x ∷ xs) ys =
    ap (λ r. answer_of x.msg_type x ++ r) (answers-append xs ys)
    ∙ sym (append_assoc (answer_of x.msg_type x) (answers xs) (answers ys))

finish_stats :
    (t : AgentTable) (j : Text)
    → (finish_agent t j).agent_stats ≡ change_stat j complete t.agent_stats
unfolding finish_agent
finish_stats t j = elim (Bool-cases (get_or j t.agent_tool_ids false)) [
  | inl e ↦ rw e refl
  | inr e ↦ rw e refl
]

finish_background :
    (t : AgentTable) (j id : Text) → in_background (finish_agent t j) id ≡ in_background t id
unfolding get_agent_stat
finish_background t j id = rw (finish_stats t j) (elim (Option-cases (lookup j t.agent_stats)) [
  | inl e ↦ rw (change_stat, e) refl
  | inr (stat, e) ↦
      rw (change_stat, e)
        (ground (arith, lookup-insert j id (complete stat) t.agent_stats, same_iff j id))
])

block_answers :
    (uuid : Text) (t : BlockType) (s : StreamSession) (b : StreamBlock)
    → (answers (sent (parent_user_block uuid t s b).actions) ≡ awaited_of s.agents t b.tool_use_id)
      × ((id : Text)
          → in_background (parent_user_block uuid t s b).session.agents id
            ≡ in_background s.agents id)
unfolding parent_user_block plain_result remove_suppressed
block_answers uuid BlockType.tool_result s b =
    (ground arith, λ id. ground (arith, finish_background s.agents b.tool_use_id id))
block_answers uuid _ s b = (refl, λ id. refl)

awaited_of_same :
    (t u : AgentTable) (ty : BlockType) (id : Text)
    → in_background t id ≡ in_background u id
    → awaited_of t ty id ≡ awaited_of u ty id
awaited_of_same t u BlockType.tool_result id h = ap (λ b. if b then [] else id ∷ []) h
awaited_of_same t u _ id h = refl

awaited_same :
    (t u : AgentTable) (bs : List StreamBlock)
    → ((id : Text) → in_background t id ≡ in_background u id)
    → awaited t bs ≡ awaited u bs
awaited_same t u [] h = refl
awaited_same t u (b ∷ bs) h =
    ap (λ r. r ++ awaited t bs) (awaited_of_same t u b.block_type b.tool_use_id (h b.tool_use_id))
    ∙ ap (λ r. awaited_of u b.block_type b.tool_use_id ++ r) (awaited_same t u bs h)

blocks_answers :
    (uuid : Text) (s : StreamSession) (bs : List StreamBlock)
    → answers (sent (each_block (λ t b. parent_user_block uuid b.block_type t b) s bs).actions)
      ≡ awaited s.agents bs
unfolding each_block
blocks_answers uuid s [] = refl
blocks_answers uuid s (b ∷ bs) =
    let (now, later) = block_answers uuid b.block_type s b in
    let d = parent_user_block uuid b.block_type s b in
    let rest = each_block (λ t b'. parent_user_block uuid b'.block_type t b') d.session bs in
    ap answers (sent-append d.actions rest.actions)
    ∙ answers-append (sent d.actions) (sent rest.actions)
    ∙ rw (now, blocks_answers uuid d.session bs, awaited_same d.session.agents s.agents bs later)
        refl

completed_answers :
    (s : StreamSession) (ms : List (Text × Text))
    → answers (sent (note_completed s ms).actions) ≡ []
unfolding note_completed
completed_answers s [] = refl
completed_answers s ((id, status) ∷ ms) = elim (Bool-cases (same status (codes "completed"))) [
  | inl e ↦ rw e (
      ap answers (
        sent-append (close_bg_stop s id).actions
          (note_completed (close_bg_stop s id).session ms).actions)
      ∙ answers-append (sent (close_bg_stop s id).actions)
          (sent (note_completed (close_bg_stop s id).session ms).actions)
      ∙ rw (completed_answers (close_bg_stop s id).session ms)
          (unfold close_bg_stop in ground arith))
  | inr e ↦ rw e (completed_answers s ms)
]

parent_answers :
    (uuid : Text) (s : StreamSession) (e : StreamEvent)
    → answers (sent (parent_user uuid s e).actions) ≡ awaited s.agents e.blocks
unfolding parent_user
parent_answers uuid s e =
    let d = each_block (λ t b. parent_user_block uuid b.block_type t b) s e.blocks in
    let d' = note_completed d.session (notifications 0 e.content_text) in
    ap answers (sent-append d.actions d'.actions)
    ∙ answers-append (sent d.actions) (sent d'.actions)
    ∙ rw
        (
          blocks_answers uuid s e.blocks,
          completed_answers d.session (notifications 0 e.content_text),
        )
        (append-nil (awaited s.agents e.blocks))

dispatch_answers :
    (t : EventType) (pid uuid : Text) (s : StreamSession) (e : StreamEvent)
    → t ≡ EventType.user
    → is_empty pid ≡ true
    → answers (sent (dispatch_event t pid uuid s e).actions) ≡ awaited s.agents e.blocks
unfolding dispatch_event
dispatch_answers t pid uuid s e u h = rw (u, h) (parent_answers uuid s e)

-- For a user message of the main conversation, every result among its blocks is answered by exactly
-- one broadcast, in the order of the blocks: a tool_result, or the end of the sub-agent that the
-- tool_use started. Only the results of agents that run in the background are passed over.
pub handle_results-answered :
    (s : StreamSession) (e : StreamEvent)
    → e.event_type ≡ EventType.user
    → is_empty (parent_id e) ≡ true
    → answers (sent (handle_stream_event s e).actions) ≡ awaited s.agents e.blocks
unfolding handle_stream_event
handle_results-answered s e u h =
    dispatch_answers e.event_type (parent_id e) (line_uuid e) (at_tip s e) e u h
