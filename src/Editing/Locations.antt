-- ===== src/Editing/Locations.antt =====
-- Where `findUserMessage` of pkg/monetdroid/handlers.go finds a message.
use monetdroid.Prelude.{
  ◌≡◌, refl, ap, ◌∙◌, Bool, true, false, ◌&&◌, ◌||◌, some, List, [], ◌∷◌, ◌++◌, map, inl, inr, Text,
  any, keep, same, Bool-cases,
}
use mathlib.Core.Path.{subst}
use mathlib.Core.Option.{some-injective, none-ne-some}
use monetdroid.Types.{ServerMsg}
use monetdroid.Session.Chain.{mem}
use monetdroid.Editing.{
  UserMsgLoc, find_user_message, find_from, later_user_uuids_of, is_active_answer, is_user_of_main,
}

-- A user message of the main timeline with the uuid.
abbrev pub is_target : Text → ServerMsg → Bool
is_target uuid m = is_user_of_main m && same m.uuid uuid

abbrev pub is_active_user : List Text → ServerMsg → Bool
is_active_user active m = is_user_of_main m && mem m.uuid active

-- The message stands in the log between the two lists, and the location says of them what it should.
abbrev pub Splits :
    List Text → Text → Bool → List ServerMsg → UserMsgLoc → List ServerMsg → List ServerMsg → Type 0
Splits active uuid rewindable log loc before after =
    (log ≡ before ++ loc.msg ∷ after)
    × (is_target uuid loc.msg ≡ true)
    × (any (is_target uuid) before ≡ false)
    × (loc.rewindable ≡ (rewindable || any (is_active_answer active) before))
    × (loc.later_user_uuids ≡ map (λ m. m.uuid) (keep (is_active_user active) after))

later_user_uuids_of-keep :
    (active : List Text) (log : List ServerMsg)
    → later_user_uuids_of active log ≡ map (λ m. m.uuid) (keep (is_active_user active) log)
later_user_uuids_of-keep active [] = refl
later_user_uuids_of-keep active (m ∷ log) = elim (Bool-cases (is_active_user active m)) [
  | inl e ↦ rw e (ap (◌∷◌ m.uuid) (later_user_uuids_of-keep active log))
  | inr e ↦ rw e (later_user_uuids_of-keep active log)
]

or_nothing : (b : Bool) → b ≡ (b || false)
or_nothing true = refl
or_nothing false = refl

or_assoc : (a b c : Bool) → ((a || b) || c) ≡ (a || (b || c))
or_assoc true b c = refl
or_assoc false b c = refl

find_from-Splits :
    (active : List Text) (uuid : Text) (rewindable : Bool) (log : List ServerMsg) (loc : UserMsgLoc)
    → find_from active uuid rewindable log ≡ some loc
    → (before : List ServerMsg) × (after : List ServerMsg) × Splits active uuid rewindable log loc
        before after
find_from-Splits active uuid rewindable [] loc e = absurd (none-ne-some loc e)
find_from-Splits active uuid rewindable (m ∷ log) loc e = elim (Bool-cases (is_target uuid m)) [
  | inl here ↦
      subst
        (λ l.
          (before : List ServerMsg) × (after : List ServerMsg) × Splits active uuid rewindable
            (m ∷ log) l before after)
        (some-injective _ loc (rw here at e))
        ([], log, (refl, here, refl, or_nothing rewindable, later_user_uuids_of-keep active log))
  | inr apart ↦
      let (before, after, (at, hit, clear, can, later)) =
        find_from-Splits active uuid (rewindable || is_active_answer active m) log loc
          (rw apart at e) in
      let can' : loc.rewindable
          ≡ (rewindable || (is_active_answer active m || any (is_active_answer active) before)) =
        can
        ∙ or_assoc rewindable (is_active_answer active m) (any (is_active_answer active) before) in
      (m ∷ before, after, (ap (◌∷◌ m) at, hit, rw apart clear, can', later))
]

-- A message that is found is the first user message of the main timeline with the uuid, which is on
-- the active branch; an answer on the active branch before it makes it one to rewind to, and the
-- later uuids are those of the user messages on the active branch behind it.
pub find_user_message-Splits :
    (log : List ServerMsg) (uuid : Text) (active : List Text) (loc : UserMsgLoc)
    → find_user_message log uuid active ≡ some loc
    → (mem uuid active ≡ true)
      × ((before : List ServerMsg) × (after : List ServerMsg) × Splits active uuid false log loc
            before after)
unfolding find_user_message
find_user_message-Splits log uuid active loc e = elim (Bool-cases (mem uuid active)) [
  | inl on ↦ (on, find_from-Splits active uuid false log loc (rw on at e))
  | inr off ↦ absurd (none-ne-some loc (rw off at e))
]
