-- ===== src/History/Info.antt =====
-- The overview of transcripts, pkg/monetdroid/history.go: parseSessionInfo with its cache, and
-- scanTokenUsage.
use monetdroid.Prelude.{
  ℕ, ◌+◌, ltb, ◌==◌, not, ◌&&◌, if◌then◌else◌, Option, none, some, List, [], ◌∷◌, Text, is_empty,
}
use monetdroid.Prelude.Maps.{Map, lookup, insert}
use monetdroid.History.Entry.{
  in_tokens, in_info, EntryType, JsonlEntry, first_text, context_after, truncate, decoded,
}
use monetdroid.History.Transcript.{model_after, add_branch, sorted_branches}

pub record TokenUsage : Type 0 where
  pub context_used : ℕ
  pub context_window : ℕ
  pub model_name : Text

abbrev pub no_usage : TokenUsage
no_usage = record { context_used = 0; context_window = 0; model_name = [] }

abbrev first_name : Text → Text → Text
first_name name known = if is_empty known then name else known

-- The first entry of the map of a result.
unfoldable pub window_after : List (Text × ℕ) → ℕ → ℕ
window_after [] w = w
window_after ((name, window) ∷ _) w = if ltb 0 window then window else w

abbrev pub result_name : List (Text × ℕ) → Text → Text
result_name [] known = known
result_name ((name, _) ∷ _) known = first_name name known

unfoldable pub scan_entry : EntryType → JsonlEntry → TokenUsage → TokenUsage
unfolding context_after model_after window_after is_empty
scan_entry EntryType.assistant e tu = record tu {
  context_used = context_after e.usage tu.context_used;
  model_name = model_after e.model tu.model_name;
}
scan_entry EntryType.result e tu = record tu {
  context_window = window_after (e.model_usage in_tokens) tu.context_window;
  model_name = result_name (e.model_usage in_tokens) tu.model_name;
}
scan_entry _ e tu = tu

unfoldable pub scan_entries : List JsonlEntry → TokenUsage → TokenUsage
unfolding scan_entry
scan_entries [] tu = tu
scan_entries (e ∷ es) tu =
    scan_entries es (if e.is_sidechain then tu else scan_entry e.entry_type e tu)

unfoldable pub scan_token_usage : List (Option JsonlEntry) → TokenUsage
unfolding scan_entries
scan_token_usage lines = scan_entries (decoded lines) no_usage

-- `cachedSessionInfo`; a time is a number.
pub record SessionInfo : Type 0 where
  pub mod_time : ℕ
  pub summary : Text
  pub cwd : Text
  pub branches : List Text
  pub num_msgs : ℕ
  pub context_used : ℕ
  pub context_window : ℕ

abbrev pub no_info : SessionInfo
no_info = record {
  mod_time = 0;
  summary = [];
  cwd = [];
  branches = [];
  num_msgs = 0;
  context_used = 0;
  context_window = 0;
}

unfoldable pub note_entry : EntryType → JsonlEntry → SessionInfo → SessionInfo
unfolding is_empty first_text truncate context_after window_after
note_entry EntryType.user e info = record info {
  num_msgs = info.num_msgs + 1;
  summary =
      if is_empty info.summary && not (is_empty (first_text e.content))
      then truncate (first_text e.content) 120
      else info.summary;
}
note_entry EntryType.assistant e info = record info {
  num_msgs = info.num_msgs + 1;
  context_used = context_after e.usage info.context_used;
}
note_entry EntryType.result e info = record info {
  num_msgs = info.num_msgs + 1;
  context_window = window_after (e.model_usage in_info) info.context_window;
}
note_entry EntryType.other_entry e info = info

-- The branches are a set during the loop.
abbrev pub note_place : JsonlEntry → SessionInfo → SessionInfo
note_place e info = record info {
  cwd = if is_empty info.cwd then e.cwd else info.cwd;
  branches = add_branch e.git_branch info.branches;
}

unfoldable pub note_entries : List JsonlEntry → SessionInfo → SessionInfo
unfolding note_entry is_empty
note_entries [] info = info
note_entries (e ∷ es) info = note_entries es (note_entry e.entry_type e (note_place e info))

unfoldable pub parse_session_info : List (Option JsonlEntry) → SessionInfo
unfolding note_entries sorted_branches
parse_session_info lines =
    let info = note_entries (decoded lines) no_info in
    record info { branches = sorted_branches info.branches }

abbrev pub at_time : ℕ → SessionInfo → SessionInfo
at_time t info = record info { mod_time = t }

-- `sessionInfoCache.get`, with what the file holds: `none` where it cannot be read to its end.
unfoldable pub get_info :
    Map SessionInfo
    → Text
    → ℕ
    → Option (List (Option JsonlEntry))
    → Map SessionInfo × Option SessionInfo
unfolding parse_session_info
get_info c path t file =
    let fresh : Map SessionInfo × Option SessionInfo = elim file [
      | none ↦ (c, none)
      | some lines ↦
          let info = at_time t (parse_session_info lines) in (insert path info c, some info)
    ] in
    elim (lookup path c) [
      | none ↦ fresh
      | some info ↦ if info.mod_time == t then (c, some info) else fresh
    ]
