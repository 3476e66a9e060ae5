-- ===== src/Git.antt =====
-- pkg/monetdroid/git.go: the readers of git's output and the classification of branches. The output
-- itself is an argument.
pub mod Porcelain
pub mod Diffs
pub mod Worktrees
mod Tests
use monetdroid.Prelude.{
  ℕ, zero, suc, ◌==◌, Bool, true, false, not, ◌&&◌, if◌then◌else◌, Option, none, some, List, [],
  ◌∷◌, ◌++◌, Text, codes, is_empty, has_prefix, trim_prefix,
}
use monetdroid.Prelude.Split.{split}
use monetdroid.Types.{itoa}

pub record WorktreeEntry : Type 0 where
  pub path : Text
  pub branch : Text

abbrev pub no_entry : WorktreeEntry
no_entry = record { path = []; branch = [] }

abbrev emit_entry : WorktreeEntry → List WorktreeEntry → List WorktreeEntry
emit_entry e later = if is_empty e.path then later else e ∷ later

-- What a line does to the current entry; an empty one is looked at by the loop.
unfoldable pub note_line : Text → WorktreeEntry → WorktreeEntry
unfolding has_prefix trim_prefix
note_line line current =
    if has_prefix (codes "worktree ") line
    then record { path = trim_prefix (codes "worktree ") line; branch = [] }
    else if has_prefix (codes "branch ") line
    then record current {
      branch = trim_prefix (codes "refs/heads/") (trim_prefix (codes "branch ") line);
    }
    else current

-- The loop of `gitWorktreeList`. An empty line ends an entry that has a path.
unfoldable pub worktrees_from : WorktreeEntry → List Text → List WorktreeEntry
unfolding note_line is_empty
worktrees_from current [] = emit_entry current []
worktrees_from current (line ∷ rest) =
    let ends = is_empty line && not (is_empty current.path) in
    let later = worktrees_from (if ends then no_entry else note_line line current) rest in
    if ends then current ∷ later else later

unfoldable pub git_worktree_list : Text → List WorktreeEntry
unfolding worktrees_from split
git_worktree_list out = worktrees_from no_entry (split b'\n' out)

pub record StatusFile : Type 0 where
  pub index : ℕ
  pub worktree : ℕ
  pub path : Text

-- `strings.TrimRight(s, "\n")`.
unfoldable pub trim_right : Text → Text
unfolding is_empty
trim_right [] = []
trim_right (c ∷ s) = let rest = trim_right s in if c == b'\n' && is_empty rest then [] else c ∷ rest

-- A line of four bytes or more; a shorter one is skipped.
unfoldable pub status_files : List Text → List StatusFile
status_files [] = []
status_files ((x ∷ y ∷ _ ∷ c ∷ path) ∷ lines) =
    record { index = x; worktree = y; path = c ∷ path } ∷ status_files lines
status_files (_ ∷ lines) = status_files lines

unfoldable pub git_status_files : Text → List StatusFile
unfolding status_files trim_right split
git_status_files out = status_files (split b'\n' (trim_right out))

pub record BranchStatus : Type 0 where
  pub name : Text
  pub depth : ℕ
  pub upstream : Text
  pub ahead_main : ℕ
  pub behind_main : ℕ
  pub ahead_remote : ℕ
  pub behind_remote : ℕ
  pub remote_gone : Bool
  pub has_remote : Bool
  pub dirty : Bool

pub record PruneBranch : Type 0 where
  pub name : Text
  pub safe : Bool
  pub reason : Text

-- The `switch` of `BuildPrunePlan`.
unfoldable pub prune_branch : Text → BranchStatus → PruneBranch
unfolding itoa
prune_branch default_branch br =
    if br.remote_gone
    then record { name = br.name; safe = true; reason = codes "remote branch deleted" }
    else if br.ahead_main == 0
    then record { name = br.name; safe = true; reason = codes "merged into " ++ default_branch }
    else record {
      name = br.name;
      safe = false;
      reason =
          itoa br.ahead_main
          ++ (if br.has_remote
              then codes " unpushed commits, remote exists"
              else codes " unpushed commits, no remote");
    }
