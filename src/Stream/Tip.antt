-- ===== src/Stream/Tip.antt =====
-- Which lines of the transcript move the tip of a session in handleStreamEvent,
-- pkg/monetdroid/claude.go, and which of them its broadcasts name.
use monetdroid.Prelude.{
  ◌≡◌, refl, ap, ◌∙◌, Bool, true, false, ◌||◌, if◌then◌else◌, List, [], ◌∷◌, Text, arith,
  Bool-cases, inl, inr, is_empty, same, same_iff, is_empty_iff,
}
use monetdroid.Prelude.Maps.{has, has-insert}
use monetdroid.Types.{ServerMsg}
use monetdroid.Session.Chain.{Chain, advance_tip}
use monetdroid.Stream.Event.{StreamEvent, StreamSession, sent}
use monetdroid.Stream.{at_tip, moves_tip, handle_stream_event, handle_all}
use monetdroid.Stream.Moves.{sent-append}
use monetdroid.Stream.Lines.{every, every-append, names, tip_uuid, handle_stream_event-Lined}

-- The lines of a history that move the tip, in their order.
abbrev pub main_lines : List StreamEvent → List Text
main_lines [] = []
main_lines (e ∷ es) = let later = main_lines es in if moves_tip e then e.uuid ∷ later else later

abbrev pub advance_all : Chain → List Text → Chain
advance_all c [] = c
advance_all c (u ∷ us) = advance_all (advance_tip c u) us

-- The active chain of a session after any messages of the CLI is what the uuids of its user and
-- assistant messages without a parent make of it, in their order; no other message moves the tip.
handle_all-chain :
    (s : StreamSession) (es : List StreamEvent)
    → (handle_all s es).session.chain ≡ advance_all s.chain (main_lines es)
unfolding handle_all at_tip
handle_all-chain s [] = refl
handle_all-chain s (e ∷ es) =
    handle_all-chain (handle_stream_event s e).session es
    ∙ ap (λ c. advance_all c (main_lines es)) (handle_stream_event-Lined s e).chain_same
    ∙ ground arith

abbrev pub is_linked : Chain → ServerMsg → Bool
is_linked c msg = is_empty msg.uuid || has msg.uuid c.line_parents

advance_tip-has :
    (c : Chain) (u v : Text)
    → has v c.line_parents ≡ true
    → has v (advance_tip c u).line_parents ≡ true
unfolding advance_tip
advance_tip-has c u v h = ground (arith, has-insert u v c.tip c.line_parents)

advance_all-has :
    (c : Chain) (us : List Text) (v : Text)
    → has v c.line_parents ≡ true
    → has v (advance_all c us).line_parents ≡ true
advance_all-has c [] v h = h
advance_all-has c (u ∷ us) v h = advance_all-has (advance_tip c u) us v (advance_tip-has c u v h)

at_tip-has :
    (s : StreamSession) (e : StreamEvent) (u : Text)
    → same u (tip_uuid e) ≡ true
    → is_empty u ≡ false
    → has u (at_tip s e).chain.line_parents ≡ true
unfolding at_tip advance_tip
at_tip-has s e u h n = ground (
  arith,
  same_iff u (tip_uuid e),
  has-insert e.uuid u s.chain.tip s.chain.line_parents,
  is_empty_iff u,
  same_iff e.uuid u,
)

linked_after :
    (s : StreamSession) (e : StreamEvent) (es : List StreamEvent) (msg : ServerMsg)
    → names (tip_uuid e) msg ≡ true
    → is_linked (handle_all (handle_stream_event s e).session es).session.chain msg ≡ true
linked_after s e es msg n =
    let chain_is = handle_all-chain (handle_stream_event s e).session es in
    let lined = (handle_stream_event-Lined s e).chain_same in
    elim (Bool-cases (is_empty msg.uuid)) [
      | inl h ↦ rw h refl
      | inr h ↦
          rw (h, chain_is, lined)
            (advance_all-has (at_tip s e).chain (main_lines es) msg.uuid
              (at_tip-has s e msg.uuid (ground (arith, n, h)) h))
    ]

every_mono :
    (p q : ServerMsg → Bool) (msgs : List ServerMsg)
    → ((msg : ServerMsg) → p msg ≡ true → q msg ≡ true)
    → every p msgs ≡ true
    → every q msgs ≡ true
every_mono p q [] h e = refl
every_mono p q (msg ∷ msgs) h e = ground (arith, h msg, every_mono p q msgs h)

-- Every broadcast of a history that carries a uuid carries one that is linked in the session's chain
-- after the history.
pub handle_all-linked :
    (s : StreamSession) (es : List StreamEvent)
    → every (is_linked (handle_all s es).session.chain) (sent (handle_all s es).actions) ≡ true
unfolding handle_all
handle_all-linked s [] = refl
handle_all-linked s (e ∷ es) =
    let d = handle_stream_event s e in
    let d' = handle_all d.session es in
    let l = handle_stream_event-Lined s e in
    ap (every (is_linked d'.session.chain)) (sent-append d.actions d'.actions)
    ∙ every-append (is_linked d'.session.chain) (sent d.actions) (sent d'.actions)
    ∙ rw
        (
          every_mono (names (tip_uuid e)) (is_linked d'.session.chain) (sent d.actions)
              (linked_after s e es) l.named,
          handle_all-linked d.session es,
        )
        refl
