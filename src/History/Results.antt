-- ===== src/History/Results.antt =====
-- The results of tools in a transcript, as parseSessionMessages of pkg/monetdroid/history.go keeps
-- them.
use monetdroid.Prelude.{
  ◌≡◌, refl, ap, sym, ◌∙◌, Bool, true, false, not, ◌&&◌, ◌||◌, if◌then◌else◌, Option, List, [], ◌∷◌,
  ◌++◌, Text, arith, Bool-cases, inl, inr, is_empty, append-nil, append_assoc,
}
use monetdroid.Prelude.Maps.{Map}
use monetdroid.History.Entry.{EntryType, ContentType, ContentBlock, JsonlEntry, decoded}
use monetdroid.History.Transcript.{
  HistoryType, HistoryMessage, UserParts, Transcript, empty_transcript, user_block, user_blocks,
  user_msgs, assistant_msgs, assistant_blocks, parse_typed, stamp_from, note_line_parent,
  parse_entry, parse_entries, parse_session_messages, typed, no_blocks, no_images, result_message,
}
use monetdroid.History.Links.{picked}

abbrev result_of : HistoryType → Text → List Text
result_of HistoryType.tool_result id = id ∷ []
result_of _ id = []

-- The tool_uses whose results are among the messages.
abbrev pub results_in : List HistoryMessage → List Text
results_in [] = []
results_in (m ∷ ms) = result_of m.history_type m.tool_use_id ++ results_in ms

abbrev block_result : ContentType → Text → List Text
block_result ContentType.tool_result id = id ∷ []
block_result _ id = []

abbrev block_results : List ContentBlock → List Text
block_results [] = []
block_results (b ∷ bs) = block_result b.content_type b.tool_use_id ++ block_results bs

abbrev entry_results : EntryType → JsonlEntry → List Text
entry_results EntryType.user e = block_results e.content.blocks
entry_results _ e = []

-- The tool_uses whose results stand in user entries of the main conversation.
abbrev pub all_results : List JsonlEntry → List Text
all_results [] = []
all_results (e ∷ es) =
    let rest = all_results es in
    if e.is_sidechain then rest else entry_results e.entry_type e ++ rest

results_in-append :
    (xs ys : List HistoryMessage) → results_in (xs ++ ys) ≡ results_in xs ++ results_in ys
results_in-append [] ys = refl
results_in-append (x ∷ xs) ys =
    ap (λ r. result_of x.history_type x.tool_use_id ++ r) (results_in-append xs ys)
    ∙ sym (append_assoc (result_of x.history_type x.tool_use_id) (results_in xs) (results_in ys))

result_message-results :
    (names : Map Text) (b : ContentBlock)
    → results_in (result_message names b ∷ []) ≡ b.tool_use_id ∷ []
result_message-results names b = elim (Bool-cases (no_images b.content.images)) [
  | inl h ↦ rw h refl
  | inr h ↦ rw h refl
]

user_block-results :
    (names : Map Text) (t : ContentType) (b : ContentBlock) (p : UserParts)
    → results_in (user_block names t b p).result_msgs
      ≡ results_in p.result_msgs ++ block_result t b.tool_use_id
unfolding user_block
user_block-results names ContentType.tool_result b p =
    results_in-append p.result_msgs (result_message names b ∷ [])
    ∙ ap (λ r. results_in p.result_msgs ++ r) (result_message-results names b)
user_block-results names ContentType.text b p = elim (Bool-cases (is_empty b.text)) [
  | inl h ↦ rw h (sym (append-nil (results_in p.result_msgs)))
  | inr h ↦ rw h (sym (append-nil (results_in p.result_msgs)))
]
user_block-results names ContentType.image b p = sym (append-nil (results_in p.result_msgs))
user_block-results names _ b p = sym (append-nil (results_in p.result_msgs))

user_blocks-results :
    (names : Map Text) (bs : List ContentBlock) (p : UserParts)
    → results_in (user_blocks names bs p).result_msgs ≡ results_in p.result_msgs ++ block_results bs
unfolding user_blocks
user_blocks-results names [] p = sym (append-nil (results_in p.result_msgs))
user_blocks-results names (b ∷ bs) p =
    user_blocks-results names bs (user_block names b.content_type b p)
    ∙ ap (λ r. r ++ block_results bs) (user_block-results names b.content_type b p)
    ∙ append_assoc (results_in p.result_msgs) (block_result b.content_type b.tool_use_id)
        (block_results bs)

abbrev none_yet : UserParts
none_yet = record { user_text = []; user_images = []; result_msgs = [] }

no_blocks-results : (bs : List ContentBlock) → no_blocks bs ≡ true → block_results bs ≡ []
no_blocks-results [] h = refl
no_blocks-results (b ∷ bs) h = absurd (ground arith)

typed-results : (p : UserParts) → results_in (typed p) ≡ []
typed-results p = elim (Bool-cases (not (is_empty p.user_text) || not (no_images p.user_images))) [
  | inl h ↦ rw h refl
  | inr h ↦ rw h refl
]

user_msgs-results :
    (names : Map Text) (e : JsonlEntry)
    → results_in (user_msgs names e) ≡ block_results e.content.blocks
unfolding user_msgs
user_msgs-results names e =
    let p = user_blocks names e.content.blocks none_yet in
    elim (Bool-cases (not (is_empty e.content.text) && no_blocks e.content.blocks)) [
      | inl h ↦ rw h (sym (no_blocks-results e.content.blocks (ground arith)))
      | inr h ↦ rw h (
          results_in-append p.result_msgs (typed p)
          ∙ rw (typed-results p) (append-nil (results_in p.result_msgs))
          ∙ user_blocks-results names e.content.blocks none_yet)
    ]

assistant_msgs-results : (t : ContentType) (b : ContentBlock) → results_in (assistant_msgs t b) ≡ []
unfolding assistant_msgs
assistant_msgs-results t b = ground arith

assistant_blocks-results :
    (bs : List ContentBlock) (st : Transcript)
    → results_in (assistant_blocks bs st).msgs ≡ results_in st.msgs
unfolding assistant_blocks
assistant_blocks-results [] st = refl
assistant_blocks-results (b ∷ bs) st =
    assistant_blocks-results bs _
    ∙ results_in-append st.msgs (assistant_msgs b.content_type b)
    ∙ rw (assistant_msgs-results b.content_type b) (append-nil (results_in st.msgs))

parse_typed-results :
    (t : EntryType) (e : JsonlEntry) (st : Transcript)
    → results_in (parse_typed t e st).msgs ≡ results_in st.msgs ++ entry_results t e
unfolding parse_typed
parse_typed-results EntryType.user e st =
    results_in-append st.msgs (user_msgs st.tool_names e)
    ∙ ap (λ r. results_in st.msgs ++ r) (user_msgs-results st.tool_names e)
parse_typed-results EntryType.assistant e st =
    assistant_blocks-results e.content.blocks _ ∙ sym (append-nil (results_in st.msgs))
parse_typed-results _ e st = sym (append-nil (results_in st.msgs))

stamp_from-results :
    (old : List HistoryMessage) (uuid : Text) (ms : List HistoryMessage)
    → results_in (stamp_from old uuid ms) ≡ results_in ms
unfolding stamp_from
stamp_from-results [] uuid [] = refl
stamp_from-results [] uuid (m ∷ ms) =
    ap (λ r. result_of m.history_type m.tool_use_id ++ r) (stamp_from-results [] uuid ms)
stamp_from-results (_ ∷ old) uuid [] = refl
stamp_from-results (_ ∷ old) uuid (m ∷ ms) =
    ap (λ r. result_of m.history_type m.tool_use_id ++ r) (stamp_from-results old uuid ms)

append_either :
    (side : Bool) (a b c : List Text)
    → (a ++ (if side then [] else b)) ++ c ≡ a ++ (if side then c else b ++ c)
append_either true a b c = ap (λ r. r ++ c) (append-nil a)
append_either false a b c = append_assoc a b c

either_way-results :
    (side : Bool) (uuid : Text) (noted parsed : Transcript) (own : List Text)
    → results_in parsed.msgs ≡ results_in noted.msgs ++ own
    → results_in (picked side uuid noted parsed).msgs
      ≡ results_in noted.msgs ++ (if side then [] else own)
either_way-results true uuid noted parsed own h = sym (append-nil (results_in noted.msgs))
either_way-results false uuid noted parsed own h =
    stamp_from-results noted.msgs uuid parsed.msgs ∙ h

parse_entries-results :
    (es : List JsonlEntry) (st : Transcript)
    → results_in (parse_entries es st).msgs ≡ results_in st.msgs ++ all_results es
unfolding parse_entries parse_entry note_line_parent
parse_entries-results [] st = sym (append-nil (results_in st.msgs))
parse_entries-results (e ∷ es) st =
    parse_entries-results es (parse_entry e st)
    ∙ ap (λ r. r ++ all_results es)
        (either_way-results e.is_sidechain e.uuid (note_line_parent e st)
          (parse_typed e.entry_type e (note_line_parent e st)) (entry_results e.entry_type e)
          (parse_typed-results e.entry_type e (note_line_parent e st)))
    ∙ append_either e.is_sidechain (results_in st.msgs) (entry_results e.entry_type e)
        (all_results es)

-- The messages of a transcript hold exactly one tool_result for every result in the user entries of
-- the main conversation, in their order: on a reload, too, the spinner of each tool goes.
pub parse_session_messages-results :
    (lines : List (Option JsonlEntry))
    → results_in (parse_session_messages lines).msgs ≡ all_results (decoded lines)
unfolding parse_session_messages
parse_session_messages-results lines = parse_entries-results (decoded lines) empty_transcript
