-- ===== src/Editing/Rewinds.antt =====
-- Which messages an edit rewinds, and in which order, pkg/monetdroid/handlers.go.
use monetdroid.Prelude.{
  ◌≡◌, refl, ap, sym, ◌∙◌, Bool, true, false, if◌then◌else◌, Option, some, List, [], ◌∷◌, ◌++◌, map,
  ◌⊎◌, inl, inr, Text, codes, not, is_empty,
}
use mathlib.Core.Option.{some-injective, none-ne-some}
use monetdroid.Types.{trim_space}
use monetdroid.Session.Queue.{QueueEntry, Effect, broadcast, push_queue_bar}
use monetdroid.Session.Sending.{send_message}
use monetdroid.Process.{Answer, answered, failed, RequestError}
use monetdroid.Editing.{
  UserMsgLoc, find_user_message, Claude, EditSession, EditAction, rewinds, tell, cancel_error,
  remove_from, cancel_queued, action_of, move_tip, resend, refuse, rewind_all, backward,
  is_active_model, active_of, edit_found, handle_edit_resend,
}

-- The rewinds that were asked for, in their order, each with whether the process has rewound.
abbrev pub rewound : List EditAction → List (Text × Bool)
rewound [] = []
rewound (rewinds t done ∷ acts) = (t, done) ∷ rewound acts
rewound (_ ∷ acts) = rewound acts

abbrev pub succeeded : Text → Text × Bool
succeeded t = (t, true)

rewound-append : (a b : List EditAction) → rewound (a ++ b) ≡ rewound a ++ rewound b
rewound-append [] b = refl
rewound-append (x ∷ a) b = elim x as (λ x. rewound (x ∷ a ++ b) ≡ rewound (x ∷ a) ++ rewound b) [
  | rewinds t done ↦ ap (◌∷◌ (t, done)) (rewound-append a b)
  | EditAction.cancels t ↦ rewound-append a b
  | EditAction.says m ↦ rewound-append a b
  | EditAction.shows_queue_bar ↦ rewound-append a b
  | EditAction.closes_session ↦ rewound-append a b
  | EditAction.redirects ↦ rewound-append a b
  | EditAction.renders m ↦ rewound-append a b
]

rewound-action_of : (es : List Effect) → rewound (map action_of es) ≡ []
rewound-action_of [] = refl
rewound-action_of (broadcast m ∷ es) = rewound-action_of es
rewound-action_of (push_queue_bar ∷ es) = rewound-action_of es

answer_cases :
    {A : Type 0} (r : Answer A)
    → ((e : RequestError) × (r ≡ failed e)) ⊎ ((a : A) × (r ≡ answered a))
answer_cases (failed e) = inl (e, refl)
answer_cases (answered a) = inr (a, refl)

rewound-cancel_queued :
    (c : Claude) (s : EditSession) (q : List QueueEntry) → rewound (cancel_queued c s q).1 ≡ []
unfolding cancel_queued
rewound-cancel_queued c s [] = refl
rewound-cancel_queued c s (e ∷ q) = elim (answer_cases (c.cancel e.uuid)) [
  | inl (err, at) ↦
      rw (rewound, cancel_queued, at) (rewound-cancel_queued c (tell s (cancel_error c err)) q)
  | inr (b, at) ↦
      rw (rewound, cancel_queued, at)
        (rewound-cancel_queued c (if b then remove_from s e.uuid else s) q)
]

rewound-resend :
    (c : Claude) (s : EditSession) (tip text new_uuid : Text)
    → rewound (resend c s tip text new_uuid).1 ≡ []
unfolding resend
rewound-resend c s tip text new_uuid =
    let (s1, acts) = cancel_queued c s s.sender.pending.queue in
    let s2 = move_tip s1 tip in
    let (_, out) = send_message c.has_process c.is_busy c.send new_uuid text [] s2.sender in
    rewound-append acts (EditAction.shows_queue_bar ∷ _ ∷ map action_of out)
    ∙ rw (rewound-cancel_queued c s s.sender.pending.queue) (rewound-action_of out)

-- A session that is kept has been rewound to the end.
rewound-rewind_all :
    (c : Claude) (s : EditSession) (text new_uuid : Text) (done us : List Text) (target : Text)
    (s' : EditSession)
    → (rewind_all c s text new_uuid done us target).0 ≡ some s'
    → rewound (rewind_all c s text new_uuid done us target).1 ≡ map succeeded (us ++ target ∷ [])
unfolding rewind_all
rewound-rewind_all c s text new_uuid done [] target s' e =
    elim (answer_cases (c.rewind done target)) [
      | inl (err, at) ↦ absurd (none-ne-some s' (rw (rewind_all, at) at e))
      | inr (r, at) ↦
          rw (rewound, rewind_all, at)
            (ap (◌∷◌ (target, true)) (rewound-resend c s r.0 text new_uuid))
    ]
rewound-rewind_all c s text new_uuid done (u ∷ us) target s' e =
    elim (answer_cases (c.rewind done u)) [
      | inl (err, at) ↦ absurd (none-ne-some s' (rw (rewind_all, at) at e))
      | inr (r, at) ↦
          rw (rewound, rewind_all, at)
            (ap (◌∷◌ (u, true)) (
              rewound-rewind_all c s text new_uuid (done ++ u ∷ []) us target s'
                (rw (rewind_all, at) at e)))
    ]

-- A session that is kept is as it was or is rewound to the end.
unfoldable IsWhole : EditSession → List Text → Option EditSession × List EditAction → Type 0
IsWhole s us r =
    (s' : EditSession)
    → r.0 ≡ some s'
    → ((rewound r.1 ≡ []) × (s'.sender ≡ s.sender)) ⊎ (rewound r.1 ≡ map succeeded us)

refuse-IsWhole : (s : EditSession) (us : List Text) (e : Text) → IsWhole s us (refuse s e)
unfolding IsWhole
refuse-IsWhole s us e s' h =
    inl (refl, ap (λ (x : EditSession). x.sender) (sym (some-injective (tell s e) s' h)))

if-IsWhole :
    (s : EditSession) (us : List Text) (b : Bool) (r r' : Option EditSession × List EditAction)
    → IsWhole s us r
    → IsWhole s us r'
    → IsWhole s us (if b then r else r')
if-IsWhole s us true r r' h h' = h
if-IsWhole s us false r r' h h' = h'

edit_found-IsWhole :
    (c : Claude) (s : EditSession) (uuid text new_uuid : Text) (loc : UserMsgLoc)
    → IsWhole s (backward loc.later_user_uuids ++ uuid ∷ []) (edit_found c s uuid text new_uuid loc)
edit_found-IsWhole c s uuid text new_uuid loc =
    let us = backward loc.later_user_uuids ++ uuid ∷ [] in
    let all = rewind_all c s text new_uuid [] (backward loc.later_user_uuids) uuid in
    let no_first = refuse s (codes "cannot edit the first message of a conversation") in
    let no_turn = refuse s (codes "cannot edit while the session is active") in
    let no_process = refuse s (codes "cannot edit while the claude process is not running") in
    let no_text = refuse s (codes "cannot send an empty edit") in
    let r1 = if not loc.rewindable then no_first else all in
    let r2 = if is_active_model s.model then no_turn else r1 in
    let r3 = if not c.is_alive then no_process else r2 in
    if-IsWhole s us (is_empty (trim_space text)) no_text r3
      (refuse-IsWhole s us (codes "cannot send an empty edit"))
      (if-IsWhole s us (not c.is_alive) no_process r2
        (refuse-IsWhole s us (codes "cannot edit while the claude process is not running"))
        (if-IsWhole s us (is_active_model s.model) no_turn r1
          (refuse-IsWhole s us (codes "cannot edit while the session is active"))
          (if-IsWhole s us (not loc.rewindable) no_first all
            (refuse-IsWhole s us (codes "cannot edit the first message of a conversation"))
            (unfold IsWhole in
              λ s' h. inr (
                rewound-rewind_all c s text new_uuid [] (backward loc.later_user_uuids) uuid s'
                  h)))))

-- A session that is still there after an edit of a message which the log has on the active branch was
-- either not asked to be rewound, and then its queue, chain and label are what they were, or the
-- user messages behind the edited one on the active branch were rewound, newest first, and it last,
-- and each of these rewinds succeeded.
pub handle_edit_resend-whole :
    (c : Claude) (s s' : EditSession) (uuid text new_uuid : Text) (loc : UserMsgLoc)
    → find_user_message s.log uuid (active_of s) ≡ some loc
    → (handle_edit_resend c s uuid text new_uuid).0 ≡ some s'
    → ((rewound (handle_edit_resend c s uuid text new_uuid).1 ≡ []) × (s'.sender ≡ s.sender))
      ⊎ (rewound (handle_edit_resend c s uuid text new_uuid).1
          ≡ map succeeded (backward loc.later_user_uuids ++ uuid ∷ []))
unfolding handle_edit_resend IsWhole
handle_edit_resend-whole c s s' uuid text new_uuid loc found e =
    let whole = edit_found-IsWhole c s uuid text new_uuid loc in
    rw (handle_edit_resend, found) (whole s' (rw (handle_edit_resend, found) at e))
