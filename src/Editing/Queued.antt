-- ===== src/Editing/Queued.antt =====
-- What an edit leaves in the queue, `handleEditResend` of pkg/monetdroid/handlers.go.
use monetdroid.Prelude.{
  ◌⊎◌, ◌≡◌, refl, ap, sym, ◌∙◌, Bool, true, false, not, ◌||◌, List, [], ◌∷◌, ◌++◌, inl, inr, arith,
  any, keep, same_iff, append_assoc,
}
use monetdroid.Session.Queue.{QueueEntry, is_entry, remove_queued}
use monetdroid.Process.{Answer, answered, failed, RequestError}
use monetdroid.Editing.{Claude, EditSession, tell, cancel_error, remove_from, cancel_queued}

-- The claude process confirms that the message is cancelled.
abbrev pub is_confirmed : Answer Bool → Bool
is_confirmed (answered b) = b
is_confirmed (failed e) = false

-- No two entries have the same uuid.
abbrev pub IsDistinct : List QueueEntry → Type 0
IsDistinct [] = Unit
IsDistinct (e ∷ q) = (any (is_entry e.uuid) q ≡ false) × IsDistinct q

remove_queued-append :
    (kept q : List QueueEntry) (e : QueueEntry)
    → any (is_entry e.uuid) kept ≡ false
    → remove_queued (kept ++ e ∷ q) e.uuid ≡ kept ++ q
unfolding remove_queued
remove_queued-append [] q e h = ground (arith, same_iff e.uuid e.uuid)
remove_queued-append (k ∷ kept) q e h =
    let apart : is_entry e.uuid k ≡ false = ground arith in
    rw apart (ap (◌∷◌ k) (remove_queued-append kept q e (ground arith)))

answer_cases :
    (r : Answer Bool) → ((e : RequestError) × (r ≡ failed e)) ⊎ ((b : Bool) × (r ≡ answered b))
answer_cases (failed e) = inl (e, refl)
answer_cases (answered b) = inr (b, refl)

any-middle :
    (p : QueueEntry → Bool) (kept q : List QueueEntry) (e : QueueEntry)
    → any p (kept ++ e ∷ q) ≡ (p e || any p (kept ++ q))
any-middle p [] q e = refl
any-middle p (k ∷ kept) q e = ground (arith, any-middle p kept q e)

IsDistinct-apart :
    (kept q : List QueueEntry) (e : QueueEntry)
    → IsDistinct (kept ++ e ∷ q)
    → any (is_entry e.uuid) kept ≡ false
IsDistinct-apart [] q e d = refl
IsDistinct-apart (k ∷ kept) q e d = ground (
  arith,
  d.0,
  any-middle (is_entry k.uuid) kept q e,
  IsDistinct-apart kept q e d.1,
  same_iff e.uuid k.uuid,
  same_iff k.uuid e.uuid,
)

IsDistinct-without :
    (kept q : List QueueEntry) (e : QueueEntry)
    → IsDistinct (kept ++ e ∷ q)
    → IsDistinct (kept ++ q)
IsDistinct-without [] q e d = d.1
IsDistinct-without (k ∷ kept) q e d =
    (ground (arith, d.0, any-middle (is_entry k.uuid) kept q e), IsDistinct-without kept q e d.1)

-- The entries that are looked at come behind those that have stayed.
queue-cancel_queued :
    (c : Claude) (s : EditSession) (kept q : List QueueEntry)
    → s.sender.pending.queue ≡ kept ++ q
    → IsDistinct (kept ++ q)
    → (cancel_queued c s q).0.sender.pending.queue
      ≡ kept ++ keep (λ e. not (is_confirmed (c.cancel e.uuid))) q
unfolding cancel_queued
queue-cancel_queued c s kept [] at d = at
queue-cancel_queued c s kept (e ∷ q) at d =
    let assoc = append_assoc kept (e ∷ []) q in
    elim (answer_cases (c.cancel e.uuid)) [
      | inl (err, r) ↦
          rw (cancel_queued, r)
            (queue-cancel_queued c (tell s (cancel_error c err)) (kept ++ e ∷ []) q (at ∙ sym assoc)
                (rw assoc d)
              ∙ append_assoc kept (e ∷ []) _)
      | inr (true, r) ↦
          rw (cancel_queued, r)
            (queue-cancel_queued c (remove_from s e.uuid) kept q
              (ap (λ x. remove_queued x e.uuid) at
                ∙ remove_queued-append kept q e (IsDistinct-apart kept q e d))
              (IsDistinct-without kept q e d))
      | inr (false, r) ↦
          rw (cancel_queued, r)
            (queue-cancel_queued c s (kept ++ e ∷ []) q (at ∙ sym assoc) (rw assoc d)
              ∙ append_assoc kept (e ∷ []) _)
    ]

-- An edit leaves in the queue, whose uuids are distinct, the entries of which the claude process does
-- not confirm that they are cancelled, in their order.
pub cancel_queued-unconfirmed :
    (c : Claude) (s : EditSession)
    → IsDistinct s.sender.pending.queue
    → (cancel_queued c s s.sender.pending.queue).0.sender.pending.queue
      ≡ keep (λ e. not (is_confirmed (c.cancel e.uuid))) s.sender.pending.queue
cancel_queued-unconfirmed c s d = queue-cancel_queued c s [] s.sender.pending.queue refl d
