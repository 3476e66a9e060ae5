-- ===== src/DiffParse.antt =====
-- pkg/monetdroid/diffparse.go: unified diffs into files, hunks and numbered lines.
pub mod Format
pub mod Header
pub mod Hunk
pub mod Sections
mod Tests
use monetdroid.Prelude.{
  ℕ, zero, suc, ◌+◌, ◌-◌, ◌*◌, ◌%◌, ◌^◌, min, Bool, true, false, not, ◌&&◌, ◌||◌, ◌==◌, leb,
  if◌then◌else◌, Option, none, some, List, [], ◌∷◌, ◌++◌, Text, codes, is_empty, has_prefix,
  trim_prefix, length, drop, get_elem?,
}
use monetdroid.Prelude.Split.{split, init, last_part, fields, span, strip}
unfoldable pub use Format.{atoi, hunk_header, some_digits, optional_count}
pub use Format.{
  LineType, context, add, remove, DiffLine, DiffHunk, DiffFile, is_digit, count_or_one,
}

-- `n++` on an int of 64 bits.
abbrev pub next_line : ℕ → ℕ
next_line n = (n + 1) % 2 ^ 64

-- What one round of the loop over a hunk's lines does.
pub data Round : Type 0 where
  stop : Round
  skip : Round
  emit : DiffLine → ℕ → ℕ → Round

-- `line[1:]` if the line begins with a space.
unfoldable pub context_content : Text → Text
context_content [] = []
context_content (c ∷ s) = if c == b' ' then s else c ∷ s

unfoldable pub line_round : ℕ → ℕ → Text → Round
unfolding context_content
line_round old new line =
    if has_prefix (codes "@@") line || has_prefix (codes "diff --git ") line
    then stop
    else if has_prefix (codes "\\ ") line
    then skip
    else if has_prefix (codes "+") line
    then emit (record { line_type = add; content = drop 1 line; old_line = 0; new_line = new }) old
        (next_line new)
    else if has_prefix (codes "-") line
    then emit (record { line_type = remove; content = drop 1 line; old_line = old; new_line = 0 })
        (next_line old) new
    else emit
        (record {
          line_type = context;
          content = context_content line;
          old_line = old;
          new_line = new;
        })
        (next_line old) (next_line new)

-- The loop: the lines of the hunk, and how many lines of text it went over.
unfoldable pub hunk_body : ℕ → ℕ → List Text → List DiffLine × ℕ
unfolding line_round
hunk_body old new [] = ([], 0)
hunk_body old new (line ∷ rest) = elim (line_round old new line) [
  | stop ↦ ([], 0)
  | skip ↦ let (ls, n) = hunk_body old new rest in (ls, suc n)
  | emit l old' new' ↦ let (ls, n) = hunk_body old' new' rest in (l ∷ ls, suc n)
]

-- The part of `parseHunk` behind the match of the header.
unfoldable pub hunk_of : Text → List Text → Option (Text × Text × Text × Text) → Option DiffHunk × ℕ
unfolding hunk_body is_empty
hunk_of line rest none = (none, 1)
hunk_of line rest (some (a, b, c, d)) =
    let (ls, n) = hunk_body (atoi a) (atoi c) rest in
    let h : DiffHunk = record {
      header = line;
      old_start = atoi a;
      old_count = count_or_one b;
      new_start = atoi c;
      new_count = count_or_one d;
      lines = ls;
    } in
    (some h, suc n)

-- The hunk at the head of the lines, and how many lines were consumed.
unfoldable pub parse_hunk : List Text → Option DiffHunk × ℕ
unfolding hunk_of
parse_hunk [] = (none, 0)
parse_hunk (line ∷ rest) =
    if not (has_prefix (codes "@@") line) then (none, 0) else hunk_of line rest (hunk_header line)

abbrev cons_some {ℓ} : {A : Type ℓ} → Option A → List A → List A
cons_some none xs = xs
cons_some (some x) xs = x ∷ xs

-- The loop over a section's hunks. The number counts the lines still to be jumped over: `i +=
-- consumed` is this line and `consumed - 1` more.
unfoldable pub hunks_from : ℕ → List Text → List DiffHunk
unfolding parse_hunk
hunks_from jump [] = []
hunks_from (suc jump) (line ∷ rest) = hunks_from jump rest
hunks_from zero (line ∷ rest) =
    let at = has_prefix (codes "@@") line in
    let (hunk, consumed) = parse_hunk (line ∷ rest) in
    let later = hunks_from (if at then consumed - 1 else 0) rest in
    if at then cons_some hunk later else later

any_prefix : List Text → Text → Bool
any_prefix [] s = false
any_prefix (p ∷ ps) s = has_prefix p s || any_prefix ps s

-- The extended header lines that are skipped.
unfoldable pub is_extended : Text → Bool
unfolding any_prefix
is_extended = any_prefix (
    codes "index "
    ∷ codes "old mode "
    ∷ codes "new mode "
    ∷ codes "new file mode "
    ∷ codes "deleted file mode "
    ∷ codes "similarity index "
    ∷ codes "rename from "
    ∷ codes "rename to "
    ∷ codes "copy from "
    ∷ codes "copy to "
    ∷ [])

skip_extended : List Text → List Text
unfolding is_extended
skip_extended [] = []
skip_extended (line ∷ rest) = if is_extended line then skip_extended rest else line ∷ rest

-- The names on a `diff --git` line, empty if it has too few fields, and the lines behind it.
git_names : List Text → Text × Text × List Text
unfolding fields has_prefix trim_prefix
git_names [] = ([], [], [])
git_names (line ∷ rest) =
    if has_prefix (codes "diff --git ") line
    then elim (fields line) [
      | _ ∷ _ ∷ a ∷ b ∷ _ ↦ (trim_prefix (codes "a/") a, trim_prefix (codes "b/") b, rest)
      | _ ↦ ([], [], rest)
    ]
    else ([], [], line ∷ rest)

-- `--- name` and `+++ name`: the name so far, or the one on the line if there is none.
name_line : Text → Text → Text → List Text → Text × List Text
unfolding has_prefix trim_prefix is_empty
name_line mark side name [] = (name, [])
name_line mark side name (line ∷ rest) =
    if has_prefix mark line
    then (if is_empty name then trim_prefix side (trim_prefix mark line) else name, rest)
    else (name, line ∷ rest)

abbrev is_binary : List Text → Bool
is_binary [] = false
is_binary (line ∷ _) = has_prefix (codes "Binary files ") line

-- The part behind the binary marker: the `---` and `+++` lines and the hunks.
section_body : Text → Text → List Text → Option DiffFile
unfolding name_line hunks_from
section_body old new lines =
    let (old', lines1) = name_line (codes "--- ") (codes "a/") old lines in
    let (new', lines2) = name_line (codes "+++ ") (codes "b/") new lines1 in
    elim (hunks_from 0 lines2) [
      | [] ↦ none
      | h ∷ hs ↦ some (record { old_name = old'; new_name = new'; binary = false; hunks = h ∷ hs })
    ]

unfoldable pub parse_file_section : List Text → Option DiffFile
unfolding git_names skip_extended section_body has_prefix
parse_file_section [] = none
parse_file_section (line ∷ rest) =
    let (old, new, lines0) = git_names (line ∷ rest) in
    let lines = skip_extended lines0 in
    if is_binary lines
    then some (record { old_name = old; new_name = new; binary = true; hunks = [] })
    else section_body old new lines

-- Ends the section that is being read, if it has a line.
abbrev pub close_section : List Text → List (List Text) → List (List Text)
close_section [] later = later
close_section (x ∷ xs) later = (x ∷ xs) ∷ later

-- The loop, with the section that is being read.
unfoldable pub sections_from : List Text → List Text → List (List Text)
sections_from current [] = close_section current []
sections_from current (line ∷ rest) =
    let fresh = sections_from (line ∷ []) rest in
    let longer = sections_from (current ++ line ∷ []) rest in
    if has_prefix (codes "diff --git ") line then close_section current fresh else longer

unfoldable pub split_into_file_sections : List Text → List (List Text)
unfolding sections_from
split_into_file_sections = sections_from []

parse_sections : List (List Text) → List DiffFile
unfolding parse_file_section
parse_sections [] = []
parse_sections (s ∷ ss) = cons_some (parse_file_section s) (parse_sections ss)

-- `strings.Split(diffText, "\n")` without the empty line at its end.
unfoldable pub text_lines : Text → List Text
unfolding split is_empty
text_lines text =
    let lines = split b'\n' text in if is_empty (last_part lines) then init lines else lines

unfoldable pub parse_unified_diff : Text → List DiffFile
unfolding parse_sections split_into_file_sections text_lines
parse_unified_diff [] = []
parse_unified_diff (c ∷ s) = parse_sections (split_into_file_sections (text_lines (c ∷ s)))
