-- ===== src/Stream/Agents.antt =====
-- That handleStreamEvent of pkg/monetdroid/claude.go changes the sub-agents of a session by moves
-- only, and what follows for the nesting depth.
use monetdroid.Prelude.{
  refl, if◌then◌else◌, not, ◌&&◌, Option, none, some, List, [], ◌∷◌, Text, arith, Bool-cases,
  Option-cases, inl, inr, is_empty, same, codes,
}
use monetdroid.Types.{AgentStat, is_suppressed_tool}
use monetdroid.Session.Agents.{get_agent_stat, update_agent_stat}
use monetdroid.Stream.Event.{
  EventType, Subtype, BlockType, RawInput, StreamUsage, StreamBlock, StreamEvent, StreamSession,
  Done, and_then, each_block, sent, does, parent_id,
}
use monetdroid.Stream.Blocks.{
  suppress_tool, remove_suppressed, agent_runs_in_background, handle_bash_tool_use,
  inner_assistant_block, parent_tool_use, parent_assistant_block, inner_user_block,
  parent_user_block, plain_result,
}
use monetdroid.Stream.System.{
  close_bg_stop, with_agents, on_task_started, on_task_progress, end_task, on_task_notification,
  on_system,
}
use monetdroid.Stream.{
  is_known, announce_skill, inner_assistant, note_usage, parent_assistant, on_result, inner_user,
  note_completed, parent_user, dispatch_event, handle_stream_event, handle_all, at_tip, line_uuid,
}
use monetdroid.Stream.Notification.{notifications}
use monetdroid.Stream.Moves.{
  Moves, stays, tells, starts, announces, finishes, marks, reports, Told, and_then-Told,
  each_block-Told, quiet-Told, Told-from,
}

handle_bash_tool_use-Told :
    (s : StreamSession) (id : Text) (input : RawInput) → Told s (handle_bash_tool_use s id input)
unfolding handle_bash_tool_use
handle_bash_tool_use-Told s id input = quiet-Told s (handle_bash_tool_use s id input) (ground arith)

inner_assistant_block-Told :
    (pid : Text) (t : BlockType) (s : StreamSession) (b : StreamBlock)
    → Told s (inner_assistant_block pid t s b)
unfolding inner_assistant_block suppress_tool Told
inner_assistant_block-Told pid BlockType.tool_use s b =
    quiet-Told s (inner_assistant_block pid BlockType.tool_use s b) (ground arith)
inner_assistant_block-Told pid _ s b = stays

inner_user_block-Told :
    (pid : Text) (t : BlockType) (s : StreamSession) (b : StreamBlock)
    → Told s (inner_user_block pid t s b)
unfolding inner_user_block remove_suppressed Told
inner_user_block-Told pid BlockType.tool_result s b =
    quiet-Told s (inner_user_block pid BlockType.tool_result s b) (ground arith)
inner_user_block-Told pid _ s b = stays

parent_tool_use-Told :
    (uuid : Text) (s : StreamSession) (b : StreamBlock) → Told s (parent_tool_use uuid s b)
unfolding parent_tool_use Told
parent_tool_use-Told uuid s b = elim (Bool-cases (same b.name (codes "AskUserQuestion"))) [
  | inl e ↦ rw e stays
  | inr e ↦ rw e (elim (Bool-cases (same b.name (codes "Agent"))) [
    | inl e' ↦ rw e' (elim (Bool-cases (agent_runs_in_background b.raw_input)) [
      | inl bg ↦ rw bg (starts b.id [] (marks b.id stays))
      | inr fg ↦ rw fg (starts b.id [] stays)
    ])
    | inr e' ↦ rw e' (elim (Bool-cases (same b.name (codes "Bash"))) [
      | inl e'' ↦ rw e'' (tells _ refl (handle_bash_tool_use-Told s b.id b.raw_input))
      | inr e'' ↦ rw e'' (tells _ refl stays)
    ])
  ])
]

parent_assistant_block-Told :
    (uuid : Text) (t : BlockType) (s : StreamSession) (b : StreamBlock)
    → Told s (parent_assistant_block uuid t s b)
unfolding parent_assistant_block suppress_tool Told
parent_assistant_block-Told uuid BlockType.thinking s b =
    quiet-Told s (parent_assistant_block uuid BlockType.thinking s b) (ground arith)
parent_assistant_block-Told uuid BlockType.text s b =
    quiet-Told s (parent_assistant_block uuid BlockType.text s b) (ground arith)
parent_assistant_block-Told uuid BlockType.tool_use s b =
    let s' : StreamSession = if is_suppressed_tool b.name then suppress_tool s b.id b.name else s in
    Told-from s s' (parent_tool_use uuid s' b) (ground arith) (parent_tool_use-Told uuid s' b)
parent_assistant_block-Told uuid _ s b = stays

parent_user_block-Told :
    (uuid : Text) (t : BlockType) (s : StreamSession) (b : StreamBlock)
    → Told s (parent_user_block uuid t s b)
unfolding parent_user_block remove_suppressed plain_result Told
parent_user_block-Told uuid BlockType.tool_result s b =
    elim (Option-cases (get_agent_stat s.agents b.tool_use_id)) [
      | inl e ↦ rw (parent_user_block, e) (tells _ (ground arith) stays)
      | inr (stat, e) ↦
          rw (parent_user_block, e)
            (elim (Bool-cases stat.background) [
              | inl bg ↦ rw bg stays
              | inr fg ↦ rw fg (finishes _ refl (tells _ refl stays))
            ])
    ]
parent_user_block-Told uuid _ s b = stays

on_task_started-Told : (s : StreamSession) (e : StreamEvent) → Told s (on_task_started s e)
unfolding on_task_started Told
on_task_started-Told s e =
    elim (Bool-cases (e.task_is_local_agent && not (is_empty e.tool_use_id))) [
      | inl h ↦ rw h (announces _ _ refl stays)
      | inr h ↦ rw h stays
    ]

on_task_progress-Told : (s : StreamSession) (e : StreamEvent) → Told s (on_task_progress s e)
unfolding on_task_progress Told
on_task_progress-Told s e =
    let t = update_agent_stat s.agents e.tool_use_id e.task_usage e.description e.last_tool_name in
    elim (Bool-cases (is_empty e.tool_use_id)) [
      | inl h ↦ rw h stays
      | inr h ↦ rw h (elim (Option-cases (get_agent_stat t e.tool_use_id)) [
        | inl none_left ↦ rw none_left (reports _ _ _ _ stays)
        | inr (stat, found) ↦ rw found (reports _ _ _ _ (tells _ refl stays))
      ])
    ]

end_task-Told :
    (s : StreamSession) (e : StreamEvent) (o : Option AgentStat) → Told s (end_task s e o)
unfolding end_task Told
end_task-Told s e none = tells _ refl stays
end_task-Told s e (some stat) = elim (Bool-cases stat.background) [
  | inl h ↦ rw h (finishes _ refl (tells _ refl stays))
  | inr h ↦ rw h stays
]

close_bg_stop-Told : (s : StreamSession) (id : Text) → Told s (close_bg_stop s id)
unfolding close_bg_stop
close_bg_stop-Told s id = quiet-Told s (close_bg_stop s id) (ground arith)

abbrev task_end : StreamSession → StreamEvent → Done
task_end s e =
    and_then (end_task s e (get_agent_stat s.agents e.tool_use_id))
      (λ s'. close_bg_stop s' e.tool_use_id)

ends_task :
    (s : StreamSession) (e : StreamEvent)
    → Moves s.agents (sent (task_end s e).actions) (task_end s e).session.agents
unfolding Told
ends_task s e =
    and_then-Told s (end_task s e (get_agent_stat s.agents e.tool_use_id))
      (λ s'. close_bg_stop s' e.tool_use_id) (end_task-Told s e _)
      (close_bg_stop-Told _ e.tool_use_id)

on_task_notification-Told :
    (s : StreamSession) (e : StreamEvent) → Told s (on_task_notification s e)
unfolding on_task_notification Told
on_task_notification-Told s e = elim (Bool-cases (is_empty e.tool_use_id)) [
  | inl h ↦ rw h stays
  | inr h ↦ rw h (elim (Option-cases e.task_usage) [
    | inl no_usage ↦ rw no_usage (ends_task s e)
    | inr (u, usage) ↦ rw usage (
        reports _ _ _ _ (
          ends_task (with_agents s (update_agent_stat s.agents e.tool_use_id (some u) e.summary []))
            e))
  ])
]

on_system-Told : (t : Subtype) (s : StreamSession) (e : StreamEvent) → Told s (on_system t s e)
unfolding on_system Told
on_system-Told Subtype.task_started s e = on_task_started-Told s e
on_system-Told Subtype.task_progress s e = on_task_progress-Told s e
on_system-Told Subtype.task_notification s e = on_task_notification-Told s e
on_system-Told Subtype.other_subtype s e = stays

announce_skill-Told :
    (pid : Text) (s : StreamSession) (e : StreamEvent) → Told s (announce_skill pid s e)
unfolding announce_skill Told
announce_skill-Told pid s e = elim (Bool-cases (is_known s pid)) [
  | inl h ↦ rw h stays
  | inr h ↦ rw h (announces _ _ refl stays)
]

inner_assistant-Told :
    (pid : Text) (s : StreamSession) (e : StreamEvent) → Told s (inner_assistant pid s e)
unfolding inner_assistant
inner_assistant-Told pid s e =
    and_then-Told s (announce_skill pid s e)
      (λ s'. each_block (λ t b. inner_assistant_block pid b.block_type t b) s' e.blocks)
      (announce_skill-Told pid s e)
      (each_block-Told _ (λ t b. inner_assistant_block-Told pid b.block_type t b) _ e.blocks)

note_usage-Told : (o : Option StreamUsage) (s : StreamSession) → Told s (note_usage o s)
unfolding note_usage
note_usage-Told o s = quiet-Told s (note_usage o s) (ground arith)

parent_assistant-Told :
    (uuid : Text) (s : StreamSession) (e : StreamEvent) → Told s (parent_assistant uuid s e)
unfolding parent_assistant
parent_assistant-Told uuid s e =
    and_then-Told s _ (note_usage e.message_usage)
      (each_block-Told _ (λ t b. parent_assistant_block-Told uuid b.block_type t b) s e.blocks)
      (note_usage-Told e.message_usage _)

on_result-Told : (s : StreamSession) (e : StreamEvent) → Told s (on_result s e)
unfolding on_result
on_result-Told s e = quiet-Told s (on_result s e) (ground arith)

inner_user-Told : (pid : Text) (s : StreamSession) (e : StreamEvent) → Told s (inner_user pid s e)
unfolding inner_user
inner_user-Told pid s e =
    each_block-Told _ (λ t b. inner_user_block-Told pid b.block_type t b) s e.blocks

note_completed-Told : (s : StreamSession) (ms : List (Text × Text)) → Told s (note_completed s ms)
unfolding note_completed Told
note_completed-Told s [] = stays
note_completed-Told s ((id, status) ∷ ms) = elim (Bool-cases (same status (codes "completed"))) [
  | inl h ↦ rw h (
      tells _ refl (
        and_then-Told s (close_bg_stop s id) (λ s'. note_completed s' ms) (close_bg_stop-Told s id)
          (note_completed-Told (close_bg_stop s id).session ms)))
  | inr h ↦ rw h (note_completed-Told s ms)
]

parent_user-Told :
    (uuid : Text) (s : StreamSession) (e : StreamEvent) → Told s (parent_user uuid s e)
unfolding parent_user
parent_user-Told uuid s e =
    and_then-Told s _ (λ s'. note_completed s' (notifications 0 e.content_text))
      (each_block-Told _ (λ t b. parent_user_block-Told uuid b.block_type t b) s e.blocks)
      (note_completed-Told _ (notifications 0 e.content_text))

dispatch_event-Told :
    (t : EventType) (pid uuid : Text) (s : StreamSession) (e : StreamEvent)
    → Told s (dispatch_event t pid uuid s e)
unfolding dispatch_event
dispatch_event-Told EventType.system pid uuid s e = on_system-Told e.subtype s e
dispatch_event-Told EventType.assistant pid uuid s e = elim (Bool-cases (is_empty pid)) [
  | inl h ↦ rw h (parent_assistant-Told uuid s e)
  | inr h ↦ rw h (inner_assistant-Told pid s e)
]
dispatch_event-Told EventType.result pid uuid s e = on_result-Told s e
dispatch_event-Told EventType.user pid uuid s e = elim (Bool-cases (is_empty pid)) [
  | inl h ↦ rw h (parent_user-Told uuid s e)
  | inr h ↦ rw h (inner_user-Told pid s e)
]
dispatch_event-Told EventType.other_event pid uuid s e = quiet-Told s (does s []) (refl, refl)

handle_stream_event-Told : (s : StreamSession) (e : StreamEvent) → Told s (handle_stream_event s e)
unfolding handle_stream_event
handle_stream_event-Told s e =
    Told-from s (at_tip s e) (handle_stream_event s e) refl
      (dispatch_event-Told e.event_type (parent_id e) (line_uuid e) (at_tip s e) e)

pub handle_all-Told : (s : StreamSession) (es : List StreamEvent) → Told s (handle_all s es)
unfolding handle_all
handle_all-Told s [] = quiet-Told s (does s []) (refl, refl)
handle_all-Told s (e ∷ es) =
    and_then-Told s (handle_stream_event s e) (λ s'. handle_all s' es)
      (handle_stream_event-Told s e) (handle_all-Told (handle_stream_event s e).session es)
