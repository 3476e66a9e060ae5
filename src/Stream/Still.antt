-- ===== src/Stream/Still.antt =====
-- The handlers below handleStreamEvent, pkg/monetdroid/claude.go, that neither end a turn nor note
-- that the stream reports its context.
use monetdroid.Prelude.{
  ◌≡◌, refl, ◌∙◌, Bool, true, false, List, [], ◌∷◌, Text, codes, count, count-append, arith,
  Bool-cases, inl, inr, same,
}
use monetdroid.Types.{MsgType}
use monetdroid.Stream.Event.{
  Subtype, BlockType, StreamBlock, StreamEvent, StreamSession, Action, sends, refreshes, Done, does,
  and_then, each_block,
}
use monetdroid.Stream.Blocks.{
  suppress_tool, remove_suppressed, handle_bash_tool_use, inner_assistant_block, parent_tool_use,
  parent_assistant_block, inner_user_block, parent_user_block, plain_result, task_done_msg,
}
use monetdroid.Stream.System.{
  close_bg_stop, on_task_started, on_task_progress, end_task, on_task_notification, on_system,
}
use monetdroid.Stream.{announce_skill, inner_assistant, inner_user, note_completed, parent_user}
use monetdroid.Stream.Notification.{notifications}
use monetdroid.Stream.Moves.{each_block-all}

abbrev is_done_type : MsgType → Bool
is_done_type MsgType.done = true
is_done_type _ = false

abbrev pub ends_turn : Action → Bool
ends_turn (sends msg) = is_done_type msg.msg_type
ends_turn _ = false

abbrev pub is_refresh : Action → Bool
is_refresh refreshes = true
is_refresh _ = false

pub record Still (s : StreamSession) (d : Done) : Type 0 where
  pub context_same : d.session.stream_context ≡ s.stream_context
  pub no_end : count ends_turn d.actions ≡ 0
  pub no_refresh : count is_refresh d.actions ≡ 0

abbrev still :
    (s : StreamSession) (d : Done)
    → (d.session.stream_context ≡ s.stream_context)
      × (count ends_turn d.actions ≡ 0)
      × (count is_refresh d.actions ≡ 0)
    → Still s d
still s d (c, e, r) = record { context_same = c; no_end = e; no_refresh = r }

pub does-Still : (s : StreamSession) → Still s (does s [])
does-Still s = still s (does s []) (refl, refl, refl)

pub and_then-Still :
    (s : StreamSession) (d : Done) (f : StreamSession → Done)
    → Still s d
    → Still d.session (f d.session)
    → Still s (and_then d f)
and_then-Still s d f h k = record {
  context_same = k.context_same ∙ h.context_same;
  no_end = count-append ends_turn d.actions (f d.session).actions ∙ rw (h.no_end, k.no_end) refl;
  no_refresh =
      count-append is_refresh d.actions (f d.session).actions
      ∙ rw (h.no_refresh, k.no_refresh) refl;
}

pub each_block-Still :
    (f : StreamSession → StreamBlock → Done)
    → ((s : StreamSession) (b : StreamBlock) → Still s (f s b))
    → (s : StreamSession) (bs : List StreamBlock) → Still s (each_block f s bs)
each_block-Still = each_block-all Still does-Still and_then-Still

inner_assistant_block-Still :
    (pid : Text) (t : BlockType) (s : StreamSession) (b : StreamBlock)
    → Still s (inner_assistant_block pid t s b)
unfolding inner_assistant_block suppress_tool
inner_assistant_block-Still pid t s b = still s (inner_assistant_block pid t s b) (ground arith)

inner_user_block-Still :
    (pid : Text) (t : BlockType) (s : StreamSession) (b : StreamBlock)
    → Still s (inner_user_block pid t s b)
unfolding inner_user_block remove_suppressed
inner_user_block-Still pid t s b = still s (inner_user_block pid t s b) (ground arith)

pub parent_assistant_block-Still :
    (uuid : Text) (t : BlockType) (s : StreamSession) (b : StreamBlock)
    → Still s (parent_assistant_block uuid t s b)
unfolding parent_assistant_block parent_tool_use handle_bash_tool_use suppress_tool
parent_assistant_block-Still uuid t s b = still s (parent_assistant_block uuid t s b) (ground arith)

parent_user_block-Still :
    (uuid : Text) (t : BlockType) (s : StreamSession) (b : StreamBlock)
    → Still s (parent_user_block uuid t s b)
unfolding parent_user_block remove_suppressed plain_result
parent_user_block-Still uuid t s b = still s (parent_user_block uuid t s b) (ground arith)

announce_skill-Still :
    (pid : Text) (s : StreamSession) (e : StreamEvent) → Still s (announce_skill pid s e)
unfolding announce_skill
announce_skill-Still pid s e = still s (announce_skill pid s e) (ground arith)

close_bg_stop-Still : (s : StreamSession) (id : Text) → Still s (close_bg_stop s id)
unfolding close_bg_stop
close_bg_stop-Still s id = still s (close_bg_stop s id) (ground arith)

note_completed-Still : (s : StreamSession) (ms : List (Text × Text)) → Still s (note_completed s ms)
unfolding note_completed
note_completed-Still s [] = does-Still s
note_completed-Still s ((id, status) ∷ ms) =
    let told = does s (sends (task_done_msg s id) ∷ []) in
    elim (Bool-cases (same status (codes "completed"))) [
      | inl h ↦ rw h (
          and_then-Still s _ (λ s'. note_completed s' ms)
            (and_then-Still s told (λ s'. close_bg_stop s' id) (still s told (refl, refl, refl))
              (close_bg_stop-Still s id))
            (note_completed-Still (close_bg_stop s id).session ms))
      | inr h ↦ rw h (note_completed-Still s ms)
    ]

pub on_system-Still :
    (t : Subtype) (s : StreamSession) (e : StreamEvent) → Still s (on_system t s e)
unfolding on_system on_task_started on_task_progress on_task_notification end_task close_bg_stop
on_system-Still t s e = still s (on_system t s e) (ground arith)

pub inner_assistant-Still :
    (pid : Text) (s : StreamSession) (e : StreamEvent) → Still s (inner_assistant pid s e)
unfolding inner_assistant
inner_assistant-Still pid s e =
    and_then-Still s (announce_skill pid s e)
      (λ s'. each_block (λ t b. inner_assistant_block pid b.block_type t b) s' e.blocks)
      (announce_skill-Still pid s e)
      (each_block-Still _ (λ t b. inner_assistant_block-Still pid b.block_type t b) _ e.blocks)

pub parent_user-Still :
    (uuid : Text) (s : StreamSession) (e : StreamEvent) → Still s (parent_user uuid s e)
unfolding parent_user
parent_user-Still uuid s e =
    and_then-Still s _ (λ s'. note_completed s' (notifications 0 e.content_text))
      (each_block-Still _ (λ t b. parent_user_block-Still uuid b.block_type t b) s e.blocks)
      (note_completed-Still _ (notifications 0 e.content_text))

pub inner_user-Still :
    (pid : Text) (s : StreamSession) (e : StreamEvent) → Still s (inner_user pid s e)
unfolding inner_user
inner_user-Still pid s e =
    each_block-Still _ (λ t b. inner_user_block-Still pid b.block_type t b) s e.blocks
