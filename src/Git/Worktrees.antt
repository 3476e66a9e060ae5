-- ===== src/Git/Worktrees.antt =====
-- The worktrees that git prints, pkg/monetdroid/git.go.
use monetdroid.Prelude.{
  ◌≡◌, ◌≢◌, refl, ap, ◌∙◌, Bool, false, not, ◌&&◌, List, [], ◌∷◌, ◌++◌, append_assoc, Text, codes,
  is_empty, has_prefix, trim_prefix, any, arith,
}
use monetdroid.Prelude.Split.{split}
use monetdroid.Prelude.Parts.{AllFree, split-Free-append}
use monetdroid.Git.{WorktreeEntry, no_entry, note_line, worktrees_from, git_worktree_list}

-- The lines of an entry: the path, other lines, the branch, and an empty line.
pub record Printed : Type 0 where
  pub entry : WorktreeEntry
  pub others : List Text

abbrev pub branch_lines : Text → List Text
branch_lines [] = []
branch_lines (c ∷ b) = (codes "branch refs/heads/" ++ c ∷ b) ∷ []

abbrev pub entry_lines : Printed → List Text
entry_lines p =
    (codes "worktree " ++ p.entry.path) ∷ (p.others ++ (branch_lines p.entry.branch ++ [] ∷ []))

abbrev pub all_lines : List Printed → List Text
all_lines [] = []
all_lines (p ∷ ps) = entry_lines p ++ all_lines ps

-- A line that says neither path nor branch and ends no entry.
abbrev pub is_other : Text → Bool
is_other line =
    not (is_empty line)
    && not (has_prefix (codes "worktree ") line)
    && not (has_prefix (codes "branch ") line)

abbrev pub AllWell : List Printed → Type 0
AllWell [] = Unit
AllWell (p ∷ ps) =
    (p.entry.path ≢ []) × (any (λ line. not (is_other line)) p.others ≡ false) × AllWell ps

abbrev pub entries : List Printed → List WorktreeEntry
entries [] = []
entries (p ∷ ps) = p.entry ∷ entries ps

begins :
    (path : Text) (rest : List Text)
    → worktrees_from no_entry ((codes "worktree " ++ path) ∷ rest)
      ≡ worktrees_from (record { path = path; branch = [] }) rest
unfolding worktrees_from note_line has_prefix is_empty trim_prefix
begins path rest = refl

over_others :
    (current : WorktreeEntry) (others rest : List Text)
    → any (λ line. not (is_other line)) others ≡ false
    → worktrees_from current (others ++ rest) ≡ worktrees_from current rest
unfolding worktrees_from note_line
over_others current [] rest h = refl
over_others current (line ∷ others) rest h =
    let full : is_empty line ≡ false = ground arith in
    let no_path : has_prefix (codes "worktree ") line ≡ false = ground arith in
    let no_branch : has_prefix (codes "branch ") line ≡ false = ground arith in
    rw (full, no_path, no_branch) (over_others current others rest (ground arith))

over_branch :
    (path branch : Text) (rest : List Text)
    → path ≢ []
    → worktrees_from (record { path = path; branch = [] }) (branch_lines branch ++ [] ∷ rest)
      ≡ record { path = path; branch = branch } ∷ worktrees_from no_entry rest
unfolding worktrees_from note_line has_prefix is_empty trim_prefix
over_branch [] branch rest h = absurd (h refl)
over_branch (c ∷ path) [] rest h = refl
over_branch (c ∷ path) (d ∷ branch) rest h = refl

-- Behind the lines of the entries there is nothing but the end of the text.
worktrees_from-all_lines :
    (ps : List Printed)
    → AllWell ps
    → worktrees_from no_entry (all_lines ps ++ [] ∷ []) ≡ entries ps
worktrees_from-all_lines [] h = unfold worktrees_from note_line has_prefix is_empty in refl
worktrees_from-all_lines (p ∷ ps) h =
    let e = p.entry in
    let ends = branch_lines e.branch in
    let rest = all_lines ps ++ [] ∷ [] in
    begins e.path (((p.others ++ (ends ++ [] ∷ [])) ++ all_lines ps) ++ [] ∷ [])
    ∙ ap (worktrees_from (record { path = e.path; branch = [] })) (
        append_assoc (p.others ++ (ends ++ [] ∷ [])) (all_lines ps) ([] ∷ [])
        ∙ append_assoc p.others (ends ++ [] ∷ []) rest
        ∙ ap (◌++◌ p.others) (append_assoc ends ([] ∷ []) rest))
    ∙ over_others (record { path = e.path; branch = [] }) p.others (ends ++ [] ∷ rest) h.1
    ∙ over_branch e.path e.branch rest h.0
    ∙ ap (◌∷◌ e) (worktrees_from-all_lines ps h.2)

-- The lines as they are printed, each with a newline at its end.
abbrev pub printed : List Text → Text
printed [] = []
printed (line ∷ lines) = line ++ b'\n' ∷ printed lines

split-printed :
    (lines : List Text) → AllFree b'\n' lines → split b'\n' (printed lines) ≡ lines ++ [] ∷ []
split-printed [] h = unfold split in refl
split-printed (line ∷ lines) h =
    split-Free-append b'\n' line (printed lines) h.0 ∙ ap (◌∷◌ line) (split-printed lines h.1)

-- Worktrees that git prints one after another, each with its path, any nonempty lines that say
-- neither path nor branch, the branch if there is one, and an empty line, each line with a newline
-- at its end, are read back in order, and nothing besides. This needs that no path is empty and no
-- line holds a newline.
pub git_worktree_list-all_lines :
    (ps : List Printed)
    → AllWell ps
    → AllFree b'\n' (all_lines ps)
    → git_worktree_list (printed (all_lines ps)) ≡ entries ps
unfolding git_worktree_list
git_worktree_list-all_lines ps h free =
    ap (worktrees_from no_entry) (split-printed (all_lines ps) free) ∙ worktrees_from-all_lines ps h
