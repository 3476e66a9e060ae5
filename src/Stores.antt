-- ===== src/Stores.antt =====
-- What monetdroid keeps on disk about sessions: pkg/monetdroid/session_tracker.go and models.go. A
-- file holds what was last saved; reading and writing it never fail here.
pub mod Histories
mod Tests
use monetdroid.Prelude.{
  ℕ, ◌+◌, Bool, true, false, if◌then◌else◌, Option, none, some, List, [], ◌∷◌, ◌++◌, Text, same,
  is_empty, any, drop_first,
}
use monetdroid.Prelude.Maps.{Map, lookup, insert, delete, get_or}

pub record TrackedSession : Type 0 where
  pub claude_id : Text
  pub label : Text
  pub auto_label : Bool
  pub status : Text
  pub outcome : Text
  pub cwd : Text
  pub branches : List Text
  pub updated_at_millis : ℕ

pub record SessionTracker : Type 0 where
  pub items : List TrackedSession
  pub saved : List TrackedSession

abbrev pub is_session : Text → TrackedSession → Bool
is_session claude_id t = same t.claude_id claude_id

-- The loop of `Track`, which also finds out whether there was an item to replace.
unfoldable pub replace_item : TrackedSession → List TrackedSession → List TrackedSession
replace_item item [] = item ∷ []
replace_item item (x ∷ xs) =
    if is_session item.claude_id x then item ∷ xs else x ∷ replace_item item xs

abbrev pub stamped : ℕ → TrackedSession → TrackedSession
stamped now item = record item { updated_at_millis = now }

abbrev save : List TrackedSession → SessionTracker
save items = record { items = items; saved = items }

unfoldable pub track : ℕ → TrackedSession → SessionTracker → SessionTracker
unfolding replace_item
track now item st = save (replace_item (stamped now item) st.items)

unfoldable pub close_session : Text → SessionTracker → SessionTracker
close_session claude_id st =
    if any (is_session claude_id) st.items
    then save (drop_first (is_session claude_id) st.items)
    else st

-- `LabelStore` and `ModelCommandStore`: a map and the one that was saved last.
pub record TextStore : Type 0 where
  pub entries : Map Text
  pub saved : Map Text

unfoldable pub set_label : TextStore → Text → Text → TextStore
set_label ls claude_id label =
    let m =
      if is_empty label then delete claude_id ls.entries else insert claude_id label ls.entries in
    record { entries = m; saved = m }

unfoldable pub get_label : TextStore → Text → Text
unfolding get_or
get_label ls claude_id = get_or claude_id ls.entries []

unfoldable pub get_or_set : TextStore → Text → Text → TextStore × Text
get_or_set ms claude_id cmd =
    let m = insert claude_id cmd ms.entries in
    elim (lookup claude_id ms.entries) [
      | some existing ↦ (ms, existing)
      | none ↦ (record { entries = m; saved = m }, cmd)
    ]

unfoldable pub get_command : TextStore → Text → Text
unfolding get_or
get_command ms claude_id = get_or claude_id ms.entries []
