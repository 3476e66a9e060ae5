-- ===== src/Session/Chain.antt =====
-- The active branch of a session, pkg/monetdroid/session.go: `AdvanceTip`, `SetTip` and `activeSet`.
pub mod Walk
pub mod Extend
mod Tests
use monetdroid.Prelude.{
  ℕ, zero, suc, ◌+◌, Bool, true, false, ◌||◌, if◌then◌else◌, Option, none, some, List, [], ◌∷◌,
  Text, is_empty, same, any, length,
}
use monetdroid.Prelude.Maps.{Map, insert, has, get_or}

pub record Chain : Type 0 where
  pub tip : Text
  pub line_parents : Map Text

-- A nil map and an empty one are not told apart.
unfoldable pub advance_tip : Chain → Text → Chain
unfolding is_empty has
advance_tip c uuid =
    if is_empty uuid
    then c
    else if has uuid c.line_parents
    then c
    else record { tip = uuid; line_parents = insert uuid c.tip c.line_parents }

unfoldable pub set_tip : Chain → Text → Chain
set_tip c uuid = record c { tip = uuid }

unfoldable pub init_tree : Map Text → Text → Chain
init_tree parents last_uuid = record { tip = last_uuid; line_parents = parents }

-- A set of strings, as the list of its members.
abbrev pub mem : Text → List Text → Bool
mem u active = any (same u) active

-- The walk from a leaf with the members so far. The loop ends by its test, or the fuel runs out.
unfoldable pub walk : ℕ → Map Text → Text → List Text → Option (List Text)
unfolding is_empty get_or
walk zero parents u active = none
walk (suc fuel) parents u active =
    let rest = walk fuel parents (get_or u parents []) (u ∷ active) in
    if is_empty u || mem u active then some active else rest

-- Each round but the last visits another key of the map.
abbrev pub walk_fuel : Map Text → ℕ
walk_fuel parents = length parents + 2

unfoldable pub active_set : Map Text → Text → Option (List Text)
unfolding walk
active_set parents leaf = walk (walk_fuel parents) parents leaf []
