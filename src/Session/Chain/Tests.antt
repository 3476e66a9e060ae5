-- ===== src/Session/Chain/Tests.antt =====
-- Runs of the active chain of pkg/monetdroid/session.go.
use monetdroid.Prelude.{◌≡◌, refl, some, List, [], ◌∷◌, Text, codes, arith, same}
use monetdroid.Prelude.Maps.{Map, has}
use monetdroid.Session.Chain.{Chain, advance_tip, active_set, walk}
use monetdroid.Session.Chain.Walk.{active_set_total}
use monetdroid.Session.Chain.Extend.{Adds, advance_tip-active_set}

-- `b` and `d` are children of `a`, the tip is `b`.
abbrev fork : Chain
fork = record {
  tip = codes "b";
  line_parents = (codes "a", []) ∷ (codes "b", codes "a") ∷ (codes "d", codes "a") ∷ [];
}

fork_active : active_set fork.line_parents fork.tip ≡ some (codes "a" ∷ codes "b" ∷ [])
unfolding active_set walk same
fork_active = refl

-- Two lines that are each other's parent.
abbrev circle : Map Text
circle = (codes "a", codes "b") ∷ (codes "b", codes "a") ∷ []

active_set_total_example : (r : List Text) × (active_set circle (codes "a") ≡ some r)
active_set_total_example = active_set_total circle (codes "a")

advance_tip-active_set_example :
    (r' : List Text) × (active_set
        (advance_tip fork (codes "c")).line_parents
        (advance_tip fork (codes "c")).tip
      ≡ some r')
    × Adds (codes "c") r' (codes "a" ∷ codes "b" ∷ [])
advance_tip-active_set_example =
    advance_tip-active_set fork (codes "c") (codes "a" ∷ codes "b" ∷ []) (ground arith)
      (unfold has same in refl) fork_active
