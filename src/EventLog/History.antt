-- ===== src/EventLog/History.antt =====
-- Whole histories of the event log of pkg/monetdroid/hub.go, from the empty log.
use monetdroid.Prelude.{◌+◌, ◌^◌, ◌<◌, ◌≤◌, ◌≡◌, ◌≢◌, count, List, [], ◌∷◌, Text, length, arith}
use monetdroid.EventLog.{EventLog, empty_log, append, has_key}
use monetdroid.EventLog.Order.{IsOrdered, append-IsOrdered}
use monetdroid.EventLog.Keys.{IsCompact, append-IsCompact}

-- The arguments of one call of `Append`.
pub record Request : Type 0 where
  pub event : Text
  pub key : Text
  pub parent : Text

unfoldable pub replay : EventLog → List Request → EventLog
replay l [] = l
replay l (r ∷ rs) = replay (append l r.event r.key r.parent).0 rs

pub replay_invariant :
    (l : EventLog) (rs : List Request)
    → IsOrdered l
    → IsCompact l
    → l.seq + length rs < 2 ^ 64
    → IsOrdered (replay l rs) × IsCompact (replay l rs) × ((replay l rs).seq ≡ l.seq + length rs)
unfolding replay
replay_invariant l [] o c h = (o, c, omega arith)
replay_invariant l (r ∷ rs) o c h =
    let l' = (append l r.event r.key r.parent).0 in
    let next : l'.seq ≡ l.seq + 1 = unfold append in omega arith in
    let (o', c', n) =
      replay_invariant l' rs (append-IsOrdered l r.event r.key r.parent o (omega arith))
        (append-IsCompact l r.event r.key r.parent c) (omega arith) in
    (o', c', omega arith)

-- After any sequence of fewer than 2^64 appends to the empty log the sequence numbers ascend
-- strictly from 1, the log's counter is the number of appends, and no nonempty compact key is under
-- two events.
pub replay-IsOrdered :
    (rs : List Request) (k : Text)
    → length rs < 2 ^ 64
    → k ≢ []
    → IsOrdered (replay empty_log rs)
      × (count (has_key k) (replay empty_log rs).events ≤ 1)
      × ((replay empty_log rs).seq ≡ length rs)
replay-IsOrdered rs k h named =
    let (o, c, n) =
      replay_invariant empty_log rs (omega arith) (λ _ _. omega arith) (omega arith) in
    (o, c k named, omega arith)
