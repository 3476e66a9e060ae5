-- ===== src/EventLog/Tests.antt =====
-- Runs of the event log of pkg/monetdroid/hub.go.
use monetdroid.Prelude.{
  ◌≤◌, ◌≡◌, refl, List, [], ◌∷◌, Text, codes, same, same_iff, arith, ◌&&◌, count,
}
use monetdroid.EventLog.{
  EventLog, empty_log, append, compact_key_of, effective_key, supersede, has_key, has_parent,
}
use monetdroid.EventLog.Order.{IsOrdered}
use monetdroid.EventLog.Keys.{IsApart, append_replaces}
use monetdroid.EventLog.History.{Request, replay, replay-IsOrdered}

abbrev bar_html : Text
bar_html = codes "<div id=\"bar\" hx-swap-oob=\"innerHTML\">1</div>"

bar_key : compact_key_of bar_html ≡ codes "bar"
unfolding compact_key_of
bar_key = refl

no_key : compact_key_of (codes "<div id=\"bar\" hx-swap-oob=\"beforeend\">1</div>") ≡ []
unfolding compact_key_of
no_key = refl

abbrev three : List Request
three =
    record { event = codes "a"; key = codes "k"; parent = [] }
    ∷ record { event = codes "b"; key = codes "c"; parent = codes "k" }
    ∷ record { event = codes "d"; key = codes "k"; parent = [] }
    ∷ []

three_replayed :
    (replay empty_log three).events
    ≡ record { seq = 3; event = codes "d"; compact_key = codes "k"; parent_key = [] } ∷ []
unfolding replay append effective_key supersede same
three_replayed = refl

replay-IsOrdered_example :
    IsOrdered (replay empty_log three)
    × (count (has_key (codes "k")) (replay empty_log three).events ≤ 1)
    × ((replay empty_log three).seq ≡ 3)
replay-IsOrdered_example = replay-IsOrdered three (codes "k") (omega arith) (ground arith)

abbrev two_log : EventLog
two_log = record {
  events =
      record { seq = 1; event = codes "a"; compact_key = codes "k"; parent_key = [] }
      ∷ record { seq = 2; event = codes "b"; compact_key = codes "c"; parent_key = codes "k" }
      ∷ [];
  seq = 2;
}

IsApart-x : IsApart (codes "k") (λ e. same e.compact_key (codes "x") && same e.parent_key [])
IsApart-x e h = ground (
  arith,
  same_iff e.compact_key (codes "x"),
  same_iff e.parent_key [],
  same_iff e.compact_key (codes "k"),
  same_iff e.parent_key (codes "k"),
)

append_replaces_example :
    (count (has_key (codes "k")) (append two_log (codes "d") (codes "k") []).0.events ≡ 1)
    × (count (has_parent (codes "k")) (append two_log (codes "d") (codes "k") []).0.events ≡ 0)
    × (count
          (λ e. same e.compact_key (codes "x") && same e.parent_key [])
          (append two_log (codes "d") (codes "k") []).0.events
        ≡ 0)
unfolding effective_key append supersede same
append_replaces_example =
    append_replaces two_log (codes "d") (codes "k") []
      (λ e. same e.compact_key (codes "x") && same e.parent_key []) (ground arith) refl IsApart-x
