-- ===== src/History/Tests.antt =====
-- Transcripts as the readers of pkg/monetdroid/history.go take them.
use monetdroid.Prelude.{
  ◌≡◌, refl, ℕ, if◌then◌else◌, true, false, Option, none, some, List, [], ◌∷◌, Text, codes,
  is_empty, same,
}
use monetdroid.Prelude.Maps.{lookup, has, insert, get_or}
use monetdroid.Session.Chain.{active_set, advance_tip}
use monetdroid.History.Entry.{EntryType, ContentType, ContentBlock, JsonlEntry, decoded}
use monetdroid.History.Transcript.{
  parse_entries, parse_entry, parse_typed, assistant_blocks, assistant_msgs, user_msgs, user_blocks,
  user_block, note_line_parent, stamp_from, parse_session_messages,
}
use monetdroid.History.Load.{last_uuid, loaded_chain}
use monetdroid.History.Info.{scan_token_usage, get_info}
use monetdroid.History.Links.{last_parent, every_message, is_linked, parse_session_messages-links}
use monetdroid.History.Results.{results_in, all_results, parse_session_messages-results}
use monetdroid.History.Usage.{tokens_of, scan_token_usage-parse}
use monetdroid.History.Cache.{Disk, fetched, get_all, get_info-transparent}
use monetdroid.History.Reload.{is_on, loaded_chain-all_on}

abbrev block : ContentType → Text → ContentBlock
block t id = record {
  content_type = t;
  text = codes "hi";
  thinking = [];
  name = codes "Grep";
  id = id;
  parsed = none;
  tool_use_id = id;
  content = record { text = codes "found"; images = []; raw = [] };
  source = none;
}

abbrev entry : EntryType → Text → Text → List ContentBlock → JsonlEntry
entry t uuid parent blocks = record {
  cwd = codes "/w";
  git_branch = codes "main";
  entry_type = t;
  uuid = uuid;
  parent_uuid = parent;
  is_sidechain = false;
  session_id = codes "s";
  result_sid = [];
  total_cost = 0;
  model_usage = λ _. (codes "m", 200) ∷ [];
  content = record { text = []; blocks = blocks };
  usage = some (record {
    input_tokens = 3;
    output_tokens = 4;
    cache_read_input_tokens = 0;
    cache_creation_input_tokens = 0;
  });
  model = codes "m";
}

abbrev lines : List (Option JsonlEntry)
lines =
    some (entry EntryType.assistant (codes "u") [] (block ContentType.tool_use (codes "t") ∷ []))
    ∷ none
    ∷ some (entry EntryType.other_entry (codes "v") (codes "u") [])
    ∷ some (
        entry EntryType.user (codes "w") (codes "v")
          (block ContentType.tool_result (codes "t") ∷ []))
    ∷ []

parse_session_messages-links_example :
    (lookup (codes "v") (parse_session_messages lines).parents
      ≡ last_parent (codes "v") none (decoded lines))
    × (every_message
          (is_linked (parse_session_messages lines).parents)
          (parse_session_messages lines).msgs
        ≡ true)
parse_session_messages-links_example =
    parse_session_messages-links lines (codes "v") (unfold is_empty in refl)

parse_session_messages-results_example :
    results_in (parse_session_messages lines).msgs ≡ all_results (decoded lines)
parse_session_messages-results_example = parse_session_messages-results lines

abbrev used_lines : List (Option JsonlEntry)
used_lines = some (entry EntryType.result [] [] []) ∷ lines

scan_token_usage-parse_example :
    scan_token_usage used_lines ≡ tokens_of (parse_session_messages used_lines).usage
scan_token_usage-parse_example =
    scan_token_usage-parse used_lines ((refl, unfold same in refl), (tt, (tt, (tt, tt))))

abbrev disk : Disk
disk path t = if same path (codes "a") then some lines else none

abbrev calls : List (Text × ℕ)
calls = (codes "a", 1) ∷ (codes "b", 1) ∷ []

get_info-transparent_example :
    (get_info (get_all disk [] calls) (codes "a") 1 (disk (codes "a") 1)).1
    ≡ fetched disk (codes "a") 1
get_info-transparent_example = get_info-transparent disk calls (codes "a") 1

last_is_tip : last_uuid (parse_session_messages lines).msgs [] ≡ codes "w"
unfolding last_uuid parse_session_messages parse_entries parse_entry parse_typed assistant_blocks
    assistant_msgs user_msgs user_blocks user_block note_line_parent stamp_from insert get_or lookup
    same is_empty
last_is_tip = refl

loaded_chain-all_on_example :
    (r : List Text) × (active_set
        (loaded_chain (parse_session_messages lines)).line_parents
        (loaded_chain (parse_session_messages lines)).tip
      ≡ some r)
    × (every_message (is_on r) (parse_session_messages lines).msgs ≡ true)
unfolding advance_tip has insert lookup same is_empty
loaded_chain-all_on_example =
    loaded_chain-all_on lines ((refl, refl, refl, (refl, refl, refl, (refl, refl, refl, tt))))
      last_is_tip
