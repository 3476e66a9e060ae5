-- ===== src/Stream/Turns.antt =====
-- The end of a turn in handleStreamEvent, pkg/monetdroid/claude.go, and when the use of the context is
-- read from the transcript instead of the stream.
use monetdroid.Types.{is_positive}
use monetdroid.Prelude.{
  ◌≡◌, refl, ap, ◌∙◌, ℕ, ◌+◌, Bool, true, false, not, ◌&&◌, ◌||◌, if◌then◌else◌, Option, none, some,
  List, [], ◌∷◌, Text, count, count-append, arith, Bool-cases, inl, inr, is_empty,
}
use monetdroid.Stream.Event.{
  EventType, StreamUsage, StreamEvent, StreamSession, Done, and_then, context_of, parent_id,
}
use monetdroid.Stream.{
  note_usage, on_result, dispatch_event, at_tip, line_uuid, handle_stream_event, handle_all,
}
use monetdroid.Stream.Still.{
  Still, ends_turn, is_refresh, does-Still, each_block-Still, parent_assistant_block-Still,
  on_system-Still, inner_assistant-Still, parent_user-Still, inner_user-Still,
}

abbrev pub is_result : EventType → Bool
is_result EventType.result = true
is_result _ = false

abbrev uses_context : Option StreamUsage → Bool
uses_context none = false
uses_context (some u) = is_positive (context_of u)

-- Whether a message with the parent reports the use of the context of the main conversation.
abbrev pub reports : EventType → Text → StreamEvent → Bool
reports EventType.assistant pid e = is_empty pid && uses_context e.message_usage
reports _ pid e = false

-- The turns of a history that end without such a report in them; the first argument says whether
-- there was one before.
abbrev pub unreported : Bool → List StreamEvent → ℕ
unreported reported [] = 0
unreported reported (e ∷ es) =
    let next = unreported false es in
    let same_turn = unreported (reported || reports e.event_type (parent_id e) e) es in
    if is_result e.event_type then (if reported then 0 else 1) + next else same_turn

abbrev pub results : List StreamEvent → ℕ
results es = count (λ e. is_result e.event_type) es

-- A call that ends a turn or not, and reports the context or not.
pub record Turn (ends reports : Bool) (s : StreamSession) (d : Done) : Type 0 where
  pub context : d.session.stream_context ≡ (if ends then false else s.stream_context || reports)
  pub dones : count ends_turn d.actions ≡ (if ends then 1 else 0)
  pub refreshed : count is_refresh d.actions ≡ (if ends && not s.stream_context then 1 else 0)

still-Turn : (s : StreamSession) (d : Done) → Still s d → Turn false false s d
still-Turn s d h = record {
  context = ground (arith, h.context_same);
  dones = h.no_end;
  refreshed = h.no_refresh;
}

note_usage-Turn :
    (o : Option StreamUsage) (s : StreamSession) → Turn false (uses_context o) s (note_usage o s)
unfolding note_usage
note_usage-Turn o s = record {
  context = ground arith;
  dones = ground arith;
  refreshed = ground arith;
}

and_then-Turn :
    (r : Bool) (s : StreamSession) (d : Done) (f : StreamSession → Done)
    → Still s d
    → Turn false r d.session (f d.session)
    → Turn false r s (and_then d f)
and_then-Turn r s d f h k = record {
  context = k.context ∙ ap (λ c. c || r) h.context_same;
  dones = count-append ends_turn d.actions (f d.session).actions ∙ rw (h.no_end, k.dones) refl;
  refreshed =
      count-append is_refresh d.actions (f d.session).actions ∙ rw (h.no_refresh, k.refreshed) refl;
}

on_result-Turn : (s : StreamSession) (e : StreamEvent) → Turn true false s (on_result s e)
unfolding on_result
on_result-Turn s e = record { context = refl; dones = ground arith; refreshed = ground arith }

dispatch_event-Turn :
    (t : EventType) (pid uuid : Text) (s : StreamSession) (e : StreamEvent)
    → Turn (is_result t) (reports t pid e) s (dispatch_event t pid uuid s e)
unfolding dispatch_event
dispatch_event-Turn EventType.system pid uuid s e = still-Turn s _ (on_system-Still e.subtype s e)
dispatch_event-Turn EventType.assistant pid uuid s e = elim (Bool-cases (is_empty pid)) [
  | inl h ↦ rw h (
      and_then-Turn (uses_context e.message_usage) s _ (note_usage e.message_usage)
        (each_block-Still _ (λ t b. parent_assistant_block-Still uuid b.block_type t b) s e.blocks)
        (note_usage-Turn e.message_usage _))
  | inr h ↦ rw h (still-Turn s _ (inner_assistant-Still pid s e))
]
dispatch_event-Turn EventType.result pid uuid s e = on_result-Turn s e
dispatch_event-Turn EventType.user pid uuid s e = elim (Bool-cases (is_empty pid)) [
  | inl h ↦ rw h (still-Turn s _ (parent_user-Still uuid s e))
  | inr h ↦ rw h (still-Turn s _ (inner_user-Still pid s e))
]
dispatch_event-Turn EventType.other_event pid uuid s e = still-Turn s _ (does-Still s)

handle_stream_event-Turn :
    (s : StreamSession) (e : StreamEvent)
    → Turn
        (is_result e.event_type)
        (reports e.event_type (parent_id e) e)
        (at_tip s e)
        (handle_stream_event s e)
unfolding handle_stream_event
handle_stream_event-Turn s e =
    dispatch_event-Turn e.event_type (parent_id e) (line_uuid e) (at_tip s e) e

-- A history makes as many `done` broadcasts as it has result messages, and starts to read the
-- transcript for the use of the context exactly as often as a turn ends in which no assistant
-- message of the main conversation reported it.
pub handle_all-turns :
    (s : StreamSession) (es : List StreamEvent)
    → (count ends_turn (handle_all s es).actions ≡ results es)
      × (count is_refresh (handle_all s es).actions ≡ unreported s.stream_context es)
unfolding handle_all at_tip
handle_all-turns s [] = (refl, refl)
handle_all-turns s (e ∷ es) =
    let d = handle_stream_event s e in
    let d' = handle_all d.session es in
    let t = handle_stream_event-Turn s e in
    let (dones, refreshed) = handle_all-turns d.session es in
    (
      count-append ends_turn d.actions d'.actions ∙ rw (t.dones, dones) (ground arith),
      count-append is_refresh d.actions d'.actions
          ∙ rw (t.refreshed, refreshed, t.context) (ground arith),
    )
