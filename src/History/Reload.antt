-- ===== src/History/Reload.antt =====
-- A session that is loaded from its transcript, pkg/monetdroid/handlers.go, history.go and session.go,
-- shows the whole conversation.
use monetdroid.Prelude.{
  ◌≡◌, ◌≢◌, refl, ap, sym, ◌∙◌, Bool, true, false, ◌||◌, Option, some, List, [], ◌∷◌, Text, arith,
  is_empty, is_empty_iff, same, same_iff,
}
use monetdroid.Prelude.Maps.{Map, lookup, has, has-insert}
use monetdroid.Session.Chain.{Chain, mem, active_set, walk, advance_tip, init_tree}
use monetdroid.Session.Chain.Extend.{advance_tip-active_set}
use monetdroid.History.Entry.{JsonlEntry, decoded}
use monetdroid.History.Transcript.{
  HistoryMessage, Transcript, empty_transcript, parse_entry, parse_entries, parse_session_messages,
}
use monetdroid.History.Load.{last_uuid, loaded_chain}
use monetdroid.History.Links.{every_message, is_linked, parse_entry-adds, entries_linked}

-- Every line has a uuid of its own and names the line before as its parent.
abbrev pub IsLinear : Chain → List JsonlEntry → Type 0
IsLinear c [] = Unit
IsLinear c (e ∷ es) =
    (is_empty e.uuid ≡ false)
    × (has e.uuid c.line_parents ≡ false)
    × (e.parent_uuid ≡ c.tip)
    × IsLinear (advance_tip c e.uuid) es

-- The chain after the lines.
abbrev pub chain_after : Chain → List JsonlEntry → Chain
chain_after c [] = c
chain_after c (e ∷ es) = chain_after (advance_tip c e.uuid) es

decoded-parents :
    (es : List JsonlEntry) (c : Chain) (st : Transcript)
    → st.parents ≡ c.line_parents
    → IsLinear c es
    → (parse_entries es st).parents ≡ (chain_after c es).line_parents
unfolding parse_entries advance_tip
decoded-parents [] c st p l = p
decoded-parents (e ∷ es) c st p (named, fresh, parent, l) =
    decoded-parents es (advance_tip c e.uuid) (parse_entry e st)
      ((parse_entry-adds e st).0 ∙ rw (advance_tip, named, fresh, p, parent) refl) l

-- All lines of the tree are on the branch.
abbrev AllOn : Map Text → List Text → Type 0
AllOn m r = (k : Text) → has k m ≡ true → mem k r ≡ true

has-advance_tip :
    (c : Chain) (u k : Text)
    → is_empty u ≡ false
    → has u c.line_parents ≡ false
    → has k (advance_tip c u).line_parents ≡ (same u k || has k c.line_parents)
unfolding advance_tip
has-advance_tip c u k named fresh = rw (named, fresh) (has-insert u k c.tip c.line_parents)

advance_tip-AllOn :
    (c : Chain) (u : Text) (r : List Text)
    → is_empty u ≡ false
    → has u c.line_parents ≡ false
    → active_set c.line_parents c.tip ≡ some r
    → AllOn c.line_parents r
    → (r' : List Text) × (active_set (advance_tip c u).line_parents (advance_tip c u).tip ≡ some r')
      × AllOn (advance_tip c u).line_parents r'
advance_tip-AllOn c u r named fresh a all =
    let (r', a', adds) =
      advance_tip-active_set c u r (λ h. absurd (ground (arith, h, is_empty_iff u))) fresh a in
    (
      r',
      a',
      λ k h.
          ground (
            arith,
            adds k,
            all k,
            has-advance_tip c u k named fresh,
            h,
            same_iff k u,
            same_iff u k,
          ),
    )

chain_after-AllOn :
    (es : List JsonlEntry) (c : Chain) (r : List Text)
    → IsLinear c es
    → active_set c.line_parents c.tip ≡ some r
    → AllOn c.line_parents r
    → (r' : List Text) × (active_set (chain_after c es).line_parents (chain_after c es).tip
        ≡ some r')
      × AllOn (chain_after c es).line_parents r'
chain_after-AllOn [] c r l a all = (r, a, all)
chain_after-AllOn (e ∷ es) c r (named, fresh, parent, l) a all =
    let (r', a', all') = advance_tip-AllOn c e.uuid r named fresh a all in
    chain_after-AllOn es (advance_tip c e.uuid) r' l a' all'

abbrev pub is_on : List Text → HistoryMessage → Bool
is_on r m = is_empty m.uuid || mem m.uuid r

every_on :
    (m : Map Text) (r : List Text) (ms : List HistoryMessage)
    → AllOn m r
    → every_message (is_linked m) ms ≡ true
    → every_message (is_on r) ms ≡ true
every_on m r [] all h = refl
every_on m r (x ∷ ms) all h = ground (arith, all x.uuid, every_on m r ms all)

abbrev pub root : Chain
root = record { tip = []; line_parents = [] }

root_active : active_set root.line_parents root.tip ≡ some []
unfolding active_set walk is_empty
root_active = refl

root_empty : (k : Text) → has k root.line_parents ≢ true
root_empty k h = unfold has lookup in ground arith

-- If the lines of a transcript have different uuids, none of them empty, every line names the line
-- before as its parent, and the last line yields a message, then the active branch of the session that is loaded from it exists and holds every
-- message.
pub loaded_chain-all_on :
    (lines : List (Option JsonlEntry))
    → IsLinear root (decoded lines)
    → last_uuid (parse_session_messages lines).msgs [] ≡ (chain_after root (decoded lines)).tip
    → (r : List Text) × (active_set
          (loaded_chain (parse_session_messages lines)).line_parents
          (loaded_chain (parse_session_messages lines)).tip
        ≡ some r)
      × (every_message (is_on r) (parse_session_messages lines).msgs ≡ true)
unfolding loaded_chain init_tree parse_session_messages
loaded_chain-all_on lines l last =
    let st = parse_session_messages lines in
    let end = chain_after root (decoded lines) in
    let (r, a, all) =
      chain_after-AllOn (decoded lines) root [] l root_active (λ k h. absurd (root_empty k h)) in
    let links = decoded-parents (decoded lines) root empty_transcript refl l in
    let linked = entries_linked (decoded lines) empty_transcript refl in
    (
      r,
      rw (links, last) a,
      every_on st.parents r st.msgs (λ k h. all k (sym (ap (has k) links) ∙ h)) linked,
    )
