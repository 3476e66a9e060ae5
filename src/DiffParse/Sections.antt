-- ===== src/DiffParse/Sections.antt =====
-- The sections of a diff, pkg/monetdroid/diffparse.go.
use mathlib.Core.List.{flatten}
use monetdroid.Prelude.{
  ◌≡◌, refl, ap, ◌∙◌, Bool, true, false, List, [], ◌∷◌, ◌++◌, append-nil, append_assoc, Text, codes,
  has_prefix, Bool-cases, inl, inr,
}
use monetdroid.DiffParse.{sections_from, close_section, split_into_file_sections}

abbrev pub is_git_line : Text → Bool
is_git_line = has_prefix (codes "diff --git ")

-- No line begins a file.
abbrev pub NoGitLine : List Text → Type 0
NoGitLine [] = Unit
NoGitLine (line ∷ rest) = (is_git_line line ≡ false) × NoGitLine rest

-- A section of a git diff: its first line begins a file and no other does.
abbrev pub IsGitSection : List Text → Type 0
IsGitSection [] = ⊥
IsGitSection (line ∷ rest) = (is_git_line line ≡ true) × NoGitLine rest

abbrev pub AllGitSections : List (List Text) → Type 0
AllGitSections [] = Unit
AllGitSections (s ∷ ss) = IsGitSection s × AllGitSections ss

flatten-close_section :
    (s : List Text) (ss : List (List Text)) → flatten (close_section s ss) ≡ s ++ flatten ss
unfolding flatten
flatten-close_section [] ss = refl
flatten-close_section (x ∷ s) ss = refl

flatten-sections_from :
    (current lines : List Text) → flatten (sections_from current lines) ≡ current ++ lines
unfolding sections_from flatten
flatten-sections_from current [] = flatten-close_section current []
flatten-sections_from current (line ∷ rest) = elim (Bool-cases (is_git_line line)) [
  | inl begins ↦ rw begins (
      flatten-close_section current (sections_from (line ∷ []) rest)
      ∙ ap (λ t. current ++ t) (flatten-sections_from (line ∷ []) rest))
  | inr inside ↦
      rw inside
        (flatten-sections_from (current ++ line ∷ []) rest ∙ append_assoc current (line ∷ []) rest)
]

-- The sections put together are the lines of the diff, none lost, added or moved.
flatten-split_into_file_sections :
    (lines : List Text) → flatten (split_into_file_sections lines) ≡ lines
unfolding split_into_file_sections
flatten-split_into_file_sections lines = flatten-sections_from [] lines

-- A section that is being read takes in the lines that begin no file.
sections_from-append :
    (current s rest : List Text)
    → NoGitLine s
    → sections_from current (s ++ rest) ≡ sections_from (current ++ s) rest
unfolding sections_from
sections_from-append current [] rest h = rw append-nil
sections_from-append current (line ∷ s) rest h = rw h.0 (
    sections_from-append (current ++ line ∷ []) s rest h.1
    ∙ ap (λ t. sections_from t rest) (append_assoc current (line ∷ []) s))

sections_from-flatten :
    (x : Text) (current : List Text) (ss : List (List Text))
    → AllGitSections ss
    → sections_from (x ∷ current) (flatten ss) ≡ (x ∷ current) ∷ ss
unfolding sections_from flatten
sections_from-flatten x current [] h = refl
sections_from-flatten x current ([] ∷ ss) h = absurd h.0
sections_from-flatten x current ((line ∷ s) ∷ ss) h = rw h.0.0 (
    ap (◌∷◌ (x ∷ current))
      (sections_from-append (line ∷ []) s (flatten ss) h.0.1 ∙ sections_from-flatten line s ss h.1))

-- The lines of any sections of a git diff, one behind the other, are cut into these sections.
split_into_file_sections-flatten :
    (ss : List (List Text)) → AllGitSections ss → split_into_file_sections (flatten ss) ≡ ss
unfolding split_into_file_sections sections_from flatten
split_into_file_sections-flatten [] h = refl
split_into_file_sections-flatten ([] ∷ ss) h = absurd h.0
split_into_file_sections-flatten ((line ∷ s) ∷ ss) h =
    rw h.0.0
      (sections_from-append (line ∷ []) s (flatten ss) h.0.1 ∙ sections_from-flatten line s ss h.1)
