-- ===== src/Stream/Lines.antt =====
-- That the handlers below handleStreamEvent, pkg/monetdroid/claude.go, leave the active chain alone
-- and put no uuid into their broadcasts but that of the line.
use monetdroid.Prelude.{
  ◌≡◌, refl, ap, ◌∙◌, Bool, true, ◌&&◌, ◌||◌, if◌then◌else◌, Option, List, [], ◌∷◌, ◌++◌, Text,
  arith, Bool-cases, inl, inr, is_empty, same, same_refl, is_empty_iff, codes,
}
use monetdroid.Types.{ServerMsg}
use monetdroid.Stream.Event.{
  EventType, Subtype, BlockType, StreamUsage, StreamBlock, StreamEvent, StreamSession, sends, Done,
  does, and_then, each_block, sent, parent_id,
}
use monetdroid.Stream.Blocks.{
  suppress_tool, remove_suppressed, handle_bash_tool_use, inner_assistant_block, parent_tool_use,
  parent_assistant_block, inner_user_block, parent_user_block, plain_result, task_done_msg,
}
use monetdroid.Stream.System.{
  close_bg_stop, on_task_started, on_task_progress, end_task, on_task_notification, on_system,
}
use monetdroid.Stream.{
  announce_skill, inner_assistant, note_usage, parent_assistant, on_result, inner_user,
  note_completed, parent_user, dispatch_event, at_tip, line_uuid, moves_tip, is_line,
  handle_stream_event,
}
use monetdroid.Stream.Notification.{notifications}
use monetdroid.Stream.Moves.{sent-append, each_block-all}

abbrev pub every : (ServerMsg → Bool) → List ServerMsg → Bool
every p [] = true
every p (msg ∷ msgs) = p msg && every p msgs

pub every-append :
    (p : ServerMsg → Bool) (xs ys : List ServerMsg)
    → every p (xs ++ ys) ≡ (every p xs && every p ys)
every-append p [] ys = refl
every-append p (x ∷ xs) ys = ground (arith, every-append p xs ys)

abbrev pub names : Text → ServerMsg → Bool
names uuid msg = is_empty msg.uuid || same msg.uuid uuid

-- A call leaves the chain alone, and its broadcasts carry the uuid or none.
pub record Lined (uuid : Text) (s : StreamSession) (d : Done) : Type 0 where
  pub chain_same : d.session.chain ≡ s.chain
  pub named : every (names uuid) (sent d.actions) ≡ true

does-Lined : (uuid : Text) (s : StreamSession) → Lined uuid s (does s [])
does-Lined uuid s = record { chain_same = refl; named = refl }

and_then-Lined :
    (uuid : Text) (s : StreamSession) (d : Done) (f : StreamSession → Done)
    → Lined uuid s d
    → Lined uuid d.session (f d.session)
    → Lined uuid s (and_then d f)
and_then-Lined uuid s d f h k = record {
  chain_same = k.chain_same ∙ h.chain_same;
  named =
      ap (every (names uuid)) (sent-append d.actions (f d.session).actions)
      ∙ every-append (names uuid) (sent d.actions) (sent (f d.session).actions)
      ∙ rw (h.named, k.named) refl;
}

each_block-Lined :
    (uuid : Text) (f : StreamSession → StreamBlock → Done)
    → ((s : StreamSession) (b : StreamBlock) → Lined uuid s (f s b))
    → (s : StreamSession) (bs : List StreamBlock) → Lined uuid s (each_block f s bs)
each_block-Lined uuid = each_block-all (Lined uuid) (does-Lined uuid) (and_then-Lined uuid)

-- A call that ground can decide.
abbrev lined :
    (uuid : Text) (s : StreamSession) (d : Done)
    → (d.session.chain ≡ s.chain) × (every (names uuid) (sent d.actions) ≡ true)
    → Lined uuid s d
lined uuid s d (c, n) = record { chain_same = c; named = n }

inner_assistant_block-Lined :
    (uuid pid : Text) (t : BlockType) (s : StreamSession) (b : StreamBlock)
    → Lined uuid s (inner_assistant_block pid t s b)
unfolding inner_assistant_block suppress_tool is_empty
inner_assistant_block-Lined uuid pid BlockType.tool_use s b =
    lined uuid s (inner_assistant_block pid BlockType.tool_use s b) (ground arith)
inner_assistant_block-Lined uuid pid _ s b = does-Lined uuid s

inner_user_block-Lined :
    (uuid pid : Text) (t : BlockType) (s : StreamSession) (b : StreamBlock)
    → Lined uuid s (inner_user_block pid t s b)
unfolding inner_user_block remove_suppressed is_empty
inner_user_block-Lined uuid pid BlockType.tool_result s b =
    lined uuid s (inner_user_block pid BlockType.tool_result s b) (ground arith)
inner_user_block-Lined uuid pid _ s b = does-Lined uuid s

parent_assistant_block-Lined :
    (uuid : Text) (t : BlockType) (s : StreamSession) (b : StreamBlock)
    → Lined uuid s (parent_assistant_block uuid t s b)
unfolding parent_assistant_block parent_tool_use handle_bash_tool_use suppress_tool is_empty
parent_assistant_block-Lined uuid t s b =
    lined uuid s (parent_assistant_block uuid t s b) (ground (arith, same_refl uuid))

parent_user_block-Lined :
    (uuid : Text) (t : BlockType) (s : StreamSession) (b : StreamBlock)
    → Lined uuid s (parent_user_block uuid t s b)
unfolding parent_user_block remove_suppressed plain_result is_empty
parent_user_block-Lined uuid t s b =
    lined uuid s (parent_user_block uuid t s b) (ground (arith, same_refl uuid))

announce_skill-Lined :
    (uuid pid : Text) (s : StreamSession) (e : StreamEvent) → Lined uuid s (announce_skill pid s e)
unfolding announce_skill is_empty
announce_skill-Lined uuid pid s e = lined uuid s (announce_skill pid s e) (ground arith)

note_usage-Lined :
    (uuid : Text) (o : Option StreamUsage) (s : StreamSession) → Lined uuid s (note_usage o s)
unfolding note_usage is_empty
note_usage-Lined uuid o s = lined uuid s (note_usage o s) (ground arith)

close_bg_stop-Lined :
    (uuid : Text) (s : StreamSession) (id : Text) → Lined uuid s (close_bg_stop s id)
unfolding close_bg_stop
close_bg_stop-Lined uuid s id = lined uuid s (close_bg_stop s id) (ground arith)

note_completed-Lined :
    (uuid : Text) (s : StreamSession) (ms : List (Text × Text)) → Lined uuid s (note_completed s ms)
unfolding note_completed is_empty
note_completed-Lined uuid s [] = does-Lined uuid s
note_completed-Lined uuid s ((id, status) ∷ ms) =
    let told = does s (sends (task_done_msg s id) ∷ []) in
    elim (Bool-cases (same status (codes "completed"))) [
      | inl h ↦ rw h (
          and_then-Lined uuid s _ (λ s'. note_completed s' ms)
            (and_then-Lined uuid s told (λ s'. close_bg_stop s' id) (lined uuid s told (refl, refl))
              (close_bg_stop-Lined uuid s id))
            (note_completed-Lined uuid (close_bg_stop s id).session ms))
      | inr h ↦ rw h (note_completed-Lined uuid s ms)
    ]

on_system-Lined :
    (uuid : Text) (t : Subtype) (s : StreamSession) (e : StreamEvent)
    → Lined uuid s (on_system t s e)
unfolding on_system on_task_started on_task_progress on_task_notification end_task close_bg_stop
    is_empty
on_system-Lined uuid t s e = lined uuid s (on_system t s e) (ground arith)

on_result-Lined : (uuid : Text) (s : StreamSession) (e : StreamEvent) → Lined uuid s (on_result s e)
unfolding on_result is_empty
on_result-Lined uuid s e = lined uuid s (on_result s e) (ground arith)

inner_assistant-Lined :
    (uuid pid : Text) (s : StreamSession) (e : StreamEvent) → Lined uuid s (inner_assistant pid s e)
unfolding inner_assistant
inner_assistant-Lined uuid pid s e =
    and_then-Lined uuid s (announce_skill pid s e)
      (λ s'. each_block (λ t b. inner_assistant_block pid b.block_type t b) s' e.blocks)
      (announce_skill-Lined uuid pid s e)
      (each_block-Lined uuid _ (λ t b. inner_assistant_block-Lined uuid pid b.block_type t b) _
        e.blocks)

parent_assistant-Lined :
    (uuid : Text) (s : StreamSession) (e : StreamEvent) → Lined uuid s (parent_assistant uuid s e)
unfolding parent_assistant
parent_assistant-Lined uuid s e =
    and_then-Lined uuid s _ (note_usage e.message_usage)
      (each_block-Lined uuid _ (λ t b. parent_assistant_block-Lined uuid b.block_type t b) s
        e.blocks)
      (note_usage-Lined uuid e.message_usage _)

parent_user-Lined :
    (uuid : Text) (s : StreamSession) (e : StreamEvent) → Lined uuid s (parent_user uuid s e)
unfolding parent_user
parent_user-Lined uuid s e =
    and_then-Lined uuid s _ (λ s'. note_completed s' (notifications 0 e.content_text))
      (each_block-Lined uuid _ (λ t b. parent_user_block-Lined uuid b.block_type t b) s e.blocks)
      (note_completed-Lined uuid _ (notifications 0 e.content_text))

inner_user-Lined :
    (uuid pid : Text) (s : StreamSession) (e : StreamEvent) → Lined uuid s (inner_user pid s e)
unfolding inner_user
inner_user-Lined uuid pid s e =
    each_block-Lined uuid _ (λ t b. inner_user_block-Lined uuid pid b.block_type t b) s e.blocks

-- The uuid of the line that the messages of an event belong to, if it moves the tip.
abbrev pub tip_uuid : StreamEvent → Text
tip_uuid e = if moves_tip e then e.uuid else []

dispatch_event-Lined :
    (t : EventType) (pid uuid : Text) (n : Text) (s : StreamSession) (e : StreamEvent)
    → (is_line t ≡ true → uuid ≡ n)
    → Lined n s (dispatch_event t pid uuid s e)
unfolding dispatch_event
dispatch_event-Lined EventType.system pid uuid n s e h = on_system-Lined n e.subtype s e
dispatch_event-Lined EventType.assistant pid uuid n s e h = elim (Bool-cases (is_empty pid)) [
  | inl p ↦ rw (p, h refl) (parent_assistant-Lined n s e)
  | inr p ↦ rw p (inner_assistant-Lined n pid s e)
]
dispatch_event-Lined EventType.result pid uuid n s e h = on_result-Lined n s e
dispatch_event-Lined EventType.user pid uuid n s e h = elim (Bool-cases (is_empty pid)) [
  | inl p ↦ rw (p, h refl) (parent_user-Lined n s e)
  | inr p ↦ rw p (inner_user-Lined n pid s e)
]
dispatch_event-Lined EventType.other_event pid uuid n s e h = does-Lined n s

pub handle_stream_event-Lined :
    (s : StreamSession) (e : StreamEvent)
    → Lined (tip_uuid e) (at_tip s e) (handle_stream_event s e)
unfolding handle_stream_event
handle_stream_event-Lined s e =
    dispatch_event-Lined e.event_type (parent_id e) (line_uuid e) (tip_uuid e) (at_tip s e) e
      (λ h. unfold line_uuid in ground (arith, is_empty_iff e.uuid))
