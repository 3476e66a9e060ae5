-- ===== src/History/Links.antt =====
-- The links of a transcript's lines, as parseSessionMessages of pkg/monetdroid/history.go records
-- them.
use monetdroid.Prelude.{
  ◌≡◌, refl, ap, sym, ◌∙◌, Bool, true, false, ◌&&◌, ◌||◌, if◌then◌else◌, Option, none, some, List,
  [], ◌∷◌, ◌++◌, Text, arith, is_empty, is_empty_iff, same, same_iff, same_refl, append-nil,
  append_assoc,
}
use monetdroid.Prelude.Maps.{Map, lookup, has, insert, lookup-insert, has-insert}
use monetdroid.History.Entry.{EntryType, ContentBlock, JsonlEntry, decoded}
use monetdroid.History.Transcript.{
  HistoryMessage, Transcript, empty_transcript, user_msgs, assistant_msgs, assistant_blocks,
  name_tool, parse_typed, stamp_from, note_line_parent, parse_entry, parse_entries,
  parse_session_messages,
}

-- The parent that the last line with the uuid names.
abbrev pub last_parent : Text → Option Text → List JsonlEntry → Option Text
last_parent u before [] = before
last_parent u before (e ∷ es) =
    last_parent u (if same e.uuid u then some e.parent_uuid else before) es

abbrev pub every_message : (HistoryMessage → Bool) → List HistoryMessage → Bool
every_message p [] = true
every_message p (m ∷ ms) = p m && every_message p ms

abbrev pub is_linked : Map Text → HistoryMessage → Bool
is_linked parents m = is_empty m.uuid || has m.uuid parents

assistant_blocks-adds :
    (bs : List ContentBlock) (st : Transcript)
    → ((assistant_blocks bs st).parents ≡ st.parents)
      × ((new : List HistoryMessage) × ((assistant_blocks bs st).msgs ≡ st.msgs ++ new))
unfolding assistant_blocks
assistant_blocks-adds [] st = (refl, ([], sym (append-nil st.msgs)))
assistant_blocks-adds (b ∷ bs) st =
    let now = assistant_msgs b.content_type b in
    let st' : Transcript = record st {
      msgs = st.msgs ++ now;
      tool_names = name_tool b.content_type b st.tool_names;
    } in
    let (links, (new, more)) = assistant_blocks-adds bs st' in
    (links, (now ++ new, more ∙ append_assoc st.msgs now new))

-- An entry adds messages behind those there are, and no link.
parse_typed-adds :
    (t : EntryType) (e : JsonlEntry) (st : Transcript)
    → ((parse_typed t e st).parents ≡ st.parents)
      × ((new : List HistoryMessage) × ((parse_typed t e st).msgs ≡ st.msgs ++ new))
unfolding parse_typed
parse_typed-adds EntryType.user e st = (refl, (user_msgs st.tool_names e, refl))
parse_typed-adds EntryType.assistant e st = assistant_blocks-adds e.content.blocks _
parse_typed-adds EntryType.result e st = (refl, ([], sym (append-nil st.msgs)))
parse_typed-adds EntryType.other_entry e st = (refl, ([], sym (append-nil st.msgs)))

stamp_new :
    (old new : List HistoryMessage) (uuid : Text)
    → stamp_from old uuid (old ++ new) ≡ old ++ stamp_from [] uuid new
unfolding stamp_from
stamp_new [] new uuid = refl
stamp_new (m ∷ old) new uuid = ap (◌∷◌ m) (stamp_new old new uuid)

-- What an entry adds: nothing if it is of a sidechain, else messages that carry its uuid.
unfoldable pub added : Bool → Text → List HistoryMessage → List HistoryMessage
added true uuid new = []
added false uuid new = stamp_from [] uuid new

abbrev pub picked : Bool → Text → Transcript → Transcript → Transcript
picked side uuid noted parsed =
    if side then noted else record parsed { msgs = stamp_from noted.msgs uuid parsed.msgs }

either_way :
    (side : Bool) (uuid : Text) (noted parsed : Transcript) (new : List HistoryMessage)
    → parsed.parents ≡ noted.parents
    → parsed.msgs ≡ noted.msgs ++ new
    → ((picked side uuid noted parsed).parents ≡ noted.parents)
      × ((picked side uuid noted parsed).msgs ≡ noted.msgs ++ added side uuid new)
unfolding added
either_way true uuid noted parsed new p m = (refl, sym (append-nil noted.msgs))
either_way false uuid noted parsed new p m =
    (p, ap (stamp_from noted.msgs uuid) m ∙ stamp_new noted.msgs new uuid)

pub parse_entry-adds :
    (e : JsonlEntry) (st : Transcript)
    → ((parse_entry e st).parents
        ≡ (if is_empty e.uuid then st.parents else insert e.uuid e.parent_uuid st.parents))
      × ((new : List HistoryMessage) × ((parse_entry e st).msgs
            ≡ st.msgs ++ added e.is_sidechain e.uuid new))
unfolding parse_entry note_line_parent
parse_entry-adds e st =
    let (links, (new, more)) = parse_typed-adds e.entry_type e (note_line_parent e st) in
    let (p, m) =
      either_way e.is_sidechain e.uuid (note_line_parent e st)
        (parse_typed e.entry_type e (note_line_parent e st)) new links more in
    (p, (new, m))

decoded-last_parent :
    (u : Text) (es : List JsonlEntry) (st : Transcript)
    → is_empty u ≡ false
    → lookup u (parse_entries es st).parents ≡ last_parent u (lookup u st.parents) es
unfolding parse_entries
decoded-last_parent u [] st n = refl
decoded-last_parent u (e ∷ es) st n =
    decoded-last_parent u es (parse_entry e st) n
    ∙ ap (λ o. last_parent u o es)
        (ap (lookup u) (parse_entry-adds e st).0
          ∙ ground (
            arith,
            lookup-insert e.uuid u e.parent_uuid st.parents,
            same_iff e.uuid u,
            is_empty_iff e.uuid,
            is_empty_iff u,
          ))

every-append :
    (p : HistoryMessage → Bool) (xs ys : List HistoryMessage)
    → every_message p (xs ++ ys) ≡ (every_message p xs && every_message p ys)
every-append p [] ys = refl
every-append p (x ∷ xs) ys = ground (arith, every-append p xs ys)

-- Links are only added.
is_linked_later :
    (m m' : Map Text) (ms : List HistoryMessage)
    → ((u : Text) → has u m ≡ true → has u m' ≡ true)
    → every_message (is_linked m) ms ≡ true
    → every_message (is_linked m') ms ≡ true
is_linked_later m m' [] h e = refl
is_linked_later m m' (x ∷ ms) h e = ground (arith, h x.uuid, is_linked_later m m' ms h)

stamped_linked :
    (uuid : Text) (m : Map Text) (new : List HistoryMessage)
    → (is_empty uuid || has uuid m) ≡ true
    → every_message (is_linked m) (stamp_from [] uuid new) ≡ true
unfolding stamp_from
stamped_linked uuid m [] h = refl
stamped_linked uuid m (x ∷ new) h = ground (arith, h, stamped_linked uuid m new h)

added_linked :
    (side : Bool) (uuid : Text) (m : Map Text) (new : List HistoryMessage)
    → (is_empty uuid || has uuid m) ≡ true
    → every_message (is_linked m) (added side uuid new) ≡ true
unfolding added
added_linked true uuid m new h = refl
added_linked false uuid m new h = stamped_linked uuid m new h

entry_linked :
    (e : JsonlEntry) (st : Transcript)
    → every_message (is_linked st.parents) st.msgs ≡ true
    → every_message (is_linked (parse_entry e st).parents) (parse_entry e st).msgs ≡ true
entry_linked e st h =
    let (links, (new, more)) = parse_entry-adds e st in
    let d = parse_entry e st in
    let old : every_message (is_linked d.parents) st.msgs ≡ true =
      is_linked_later st.parents d.parents st.msgs
        (λ u k. ground (arith, links, k, has-insert e.uuid u e.parent_uuid st.parents)) h in
    let own : (is_empty e.uuid || has e.uuid d.parents) ≡ true =
      ground (arith, links, same_refl e.uuid, has-insert e.uuid e.uuid e.parent_uuid st.parents) in
    ap (every_message (is_linked d.parents)) more
    ∙ every-append (is_linked d.parents) st.msgs (added e.is_sidechain e.uuid new)
    ∙ rw (old, added_linked e.is_sidechain e.uuid d.parents new own) refl

pub entries_linked :
    (es : List JsonlEntry) (st : Transcript)
    → every_message (is_linked st.parents) st.msgs ≡ true
    → every_message (is_linked (parse_entries es st).parents) (parse_entries es st).msgs ≡ true
unfolding parse_entries
entries_linked [] st h = h
entries_linked (e ∷ es) st h = entries_linked es (parse_entry e st) (entry_linked e st h)

-- For every nonempty uuid, the transcript's tree of lines has the parent that the last line with the
-- uuid names, whatever the line is and whether or not it yields a message, and no other uuid is in
-- the tree; every message carries no uuid or one that is in the tree.
pub parse_session_messages-links :
    (lines : List (Option JsonlEntry)) (u : Text)
    → is_empty u ≡ false
    → (lookup u (parse_session_messages lines).parents ≡ last_parent u none (decoded lines))
      × (every_message
            (is_linked (parse_session_messages lines).parents)
            (parse_session_messages lines).msgs
          ≡ true)
unfolding parse_session_messages lookup
parse_session_messages-links lines u n = (
  decoded-last_parent u (decoded lines) empty_transcript n,
  entries_linked (decoded lines) empty_transcript refl,
)
