-- ===== src/Stream/Notification.antt =====
-- The notifications of finished background commands in a prompt: bgTaskNotificationPattern of
-- pkg/monetdroid/claude.go, `<tool-use-id>([^<]+)</tool-use-id>.*?<status>([^<]+)</status>`.
use monetdroid.Prelude.{
  ℕ, zero, suc, ◌-◌, Bool, not, ◌==◌, if◌then◌else◌, Option, none, some, List, [], ◌∷◌, Text, codes,
  is_empty, has_prefix, drop, length, ◌≡◌, refl,
}
use monetdroid.Prelude.Split.{span}

abbrev in_group : ℕ → Bool
in_group c = not (c == b'<')

-- `first([^<]+)last` at the head of a text: the group and what follows.
unfoldable pub tagged : Text → Text → Text → Option (Text × Text)
unfolding has_prefix span is_empty
tagged first last s =
    let (group, rest) = span in_group (drop (length first) s) in
    if has_prefix first s
    then (if is_empty group
        then none
        else if has_prefix last rest
        then some (group, drop (length last) rest)
        else none)
    else none

-- `.*?<status>([^<]+)</status>`: the first match on the line.
unfoldable pub status_match : Text → Option (Text × Text)
unfolding tagged
status_match [] = none
status_match (c ∷ s) = elim (tagged (codes "<status>") (codes "</status>") (c ∷ s)) [
  | some m ↦ some m
  | none ↦ if c == b'\n' then none else status_match s
]

-- The pattern at the head of a text: both groups and what follows.
unfoldable pub notification : Text → Option (Text × Text × Text)
unfolding tagged status_match
notification s = elim (tagged (codes "<tool-use-id>") (codes "</tool-use-id>") s) [
  | none ↦ none
  | some (id, after) ↦ elim (status_match after) [
    | none ↦ none
    | some (status, rest) ↦ some (id, status, rest)
  ]
]

-- The matches of a text behind the bytes that are skipped, from left to right, none of which
-- overlaps the one before.
unfoldable pub notifications : ℕ → Text → List (Text × Text)
unfolding notification
notifications skip [] = []
notifications (suc skip) (c ∷ s) = notifications skip s
notifications zero (c ∷ s) = elim (notification (c ∷ s)) [
  | none ↦ notifications 0 s
  | some (id, status, rest) ↦ (id, status) ∷ notifications (length s - length rest) s
]

two_lines :
    notifications 0 (
      codes
        "<tool-use-id>a</tool-use-id>\n<status>completed</status><tool-use-id>b</tool-use-id> x <status>failed</status>")
    ≡ (codes "b", codes "failed") ∷ []
unfolding notifications notification tagged status_match has_prefix span is_empty
two_lines = refl
