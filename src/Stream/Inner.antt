-- ===== src/Stream/Inner.antt =====
-- What handleStreamEvent of pkg/monetdroid/claude.go broadcasts for the messages of a sub-agent.
use monetdroid.Prelude.{
  ◌≡◌, refl, ap, ◌∙◌, Bool, true, false, ◌&&◌, List, [], Text, arith, is_empty, same, same_refl,
}
use monetdroid.Types.{MsgType, ServerMsg}
use monetdroid.Stream.Event.{
  EventType, BlockType, StreamBlock, StreamEvent, StreamSession, Done, does, and_then, each_block,
  sent, parent_id,
}
use monetdroid.Stream.Blocks.{
  suppress_tool, remove_suppressed, inner_assistant_block, inner_user_block,
}
use monetdroid.Stream.{
  announce_skill, inner_assistant, inner_user, dispatch_event, at_tip, line_uuid, is_line,
  handle_stream_event,
}
use monetdroid.Stream.Moves.{sent-append, each_block-all}
use monetdroid.Stream.Lines.{every, every-append}

-- The messages that a section shows or that open it.
abbrev in_section : MsgType → Bool
in_section MsgType.subagent_started = true
in_section MsgType.tool_use = true
in_section MsgType.tool_result = true
in_section _ = false

abbrev pub is_inner : Text → ServerMsg → Bool
is_inner pid msg = same msg.agent_id pid && is_empty msg.uuid && in_section msg.msg_type

-- All broadcasts of a call are of the section of the sub-agent.
unfoldable Inside : Text → StreamSession → Done → Type 0
Inside pid s d = every (is_inner pid) (sent d.actions) ≡ true

does-Inside : (pid : Text) (s : StreamSession) → Inside pid s (does s [])
unfolding Inside
does-Inside pid s = refl

and_then-Inside :
    (pid : Text) (s : StreamSession) (d : Done) (f : StreamSession → Done)
    → Inside pid s d
    → Inside pid d.session (f d.session)
    → Inside pid s (and_then d f)
unfolding Inside
and_then-Inside pid s d f h k =
    ap (every (is_inner pid)) (sent-append d.actions (f d.session).actions)
    ∙ every-append (is_inner pid) (sent d.actions) (sent (f d.session).actions)
    ∙ rw (h, k) refl

each_block-Inside :
    (pid : Text) (f : StreamSession → StreamBlock → Done)
    → ((s : StreamSession) (b : StreamBlock) → Inside pid s (f s b))
    → (s : StreamSession) (bs : List StreamBlock) → Inside pid s (each_block f s bs)
each_block-Inside pid = each_block-all (Inside pid) (does-Inside pid) (and_then-Inside pid)

assistant_block-Inside :
    (pid : Text) (t : BlockType) (s : StreamSession) (b : StreamBlock)
    → Inside pid s (inner_assistant_block pid t s b)
unfolding Inside inner_assistant_block suppress_tool is_empty
assistant_block-Inside pid t s b = ground (arith, same_refl pid)

user_block-Inside :
    (pid : Text) (t : BlockType) (s : StreamSession) (b : StreamBlock)
    → Inside pid s (inner_user_block pid t s b)
unfolding Inside inner_user_block remove_suppressed is_empty
user_block-Inside pid t s b = ground (arith, same_refl pid)

announce_skill-Inside :
    (pid : Text) (s : StreamSession) (e : StreamEvent) → Inside pid s (announce_skill pid s e)
unfolding Inside announce_skill is_empty
announce_skill-Inside pid s e = ground (arith, same_refl pid)

dispatch_event-Inside :
    (t : EventType) (pid uuid : Text) (s : StreamSession) (e : StreamEvent)
    → is_empty pid ≡ false
    → is_line t ≡ true
    → Inside pid s (dispatch_event t pid uuid s e)
unfolding dispatch_event inner_assistant inner_user
dispatch_event-Inside EventType.assistant pid uuid s e h l = rw h (
    and_then-Inside pid s (announce_skill pid s e)
      (λ s'. each_block (λ t b. inner_assistant_block pid b.block_type t b) s' e.blocks)
      (announce_skill-Inside pid s e)
      (each_block-Inside pid _ (λ t b. assistant_block-Inside pid b.block_type t b) _ e.blocks))
dispatch_event-Inside EventType.user pid uuid s e h l =
    rw h (each_block-Inside pid _ (λ t b. user_block-Inside pid b.block_type t b) s e.blocks)
dispatch_event-Inside _ pid uuid s e h l = absurd (ground arith)

-- Every broadcast for a user or assistant message of a sub-agent opens the section of that
-- sub-agent or is a tool_use or tool_result in it, and names no line of the main transcript: none
-- of its text reaches the main conversation.
pub handle_inner-inside :
    (s : StreamSession) (e : StreamEvent)
    → is_empty (parent_id e) ≡ false
    → is_line e.event_type ≡ true
    → every (is_inner (parent_id e)) (sent (handle_stream_event s e).actions) ≡ true
unfolding Inside handle_stream_event
handle_inner-inside s e h l =
    dispatch_event-Inside e.event_type (parent_id e) (line_uuid e) (at_tip s e) e h l
