-- ===== src/Kb/Input.antt =====
-- The errors of pkg/kb/ops.go, and the format of an edit.
use monetdroid.Prelude.{ℕ, if◌then◌else◌, Option, none, some, List, [], ◌∷◌, Text, same, is_empty}
use monetdroid.Prelude.Split.{split, join, ends_with, init}

-- The errors, a git command's with its text.
pub data Failure : Type 0 where
  read_only not_initialized missing not_found : Failure
  not_unique : ℕ → Failure
  git_failed : Text → Failure
  empty_input empty_separator no_separator empty_old : Failure

pub data Outcome (A : Type 0) : Type 0 where
  ok : A → Outcome A
  failed : Failure → Outcome A

pub record EditInput : Type 0 where
  pub old : Text
  pub new : Text

-- `strings.TrimSuffix(s, "\n")`.
abbrev trim_newline : Text → Text
trim_newline s = if ends_with b'\n' s then init s else s

abbrev keep_line : Text → Option (List Text × List Text) → Option (List Text × List Text)
keep_line line none = none
keep_line line (some (a, b)) = some (line ∷ a, b)

-- The lines before the next line that is the separator, and those behind it.
unfoldable pub cut_at : Text → List Text → Option (List Text × List Text)
unfolding same
cut_at sep [] = none
cut_at sep (line ∷ rest) =
    let later = keep_line line (cut_at sep rest) in if same line sep then some ([], rest) else later

-- What follows the first line.
edit_input_of : Option (List Text × List Text) → Outcome EditInput
unfolding is_empty join
edit_input_of none = failed no_separator
edit_input_of (some (a, b)) =
    if is_empty (join b'\n' a)
    then failed empty_old
    else ok (record { old = join b'\n' a; new = join b'\n' b })

unfoldable pub parse_lines : List Text → Outcome EditInput
unfolding cut_at edit_input_of is_empty
parse_lines [] = failed empty_separator
parse_lines (sep ∷ rest) =
    if is_empty sep then failed empty_separator else edit_input_of (cut_at sep rest)

unfoldable pub parse_edit_input : Text → Outcome EditInput
unfolding parse_lines is_empty split
parse_edit_input stdin =
    let s = trim_newline stdin in
    if is_empty s then failed empty_input else parse_lines (split b'\n' s)
