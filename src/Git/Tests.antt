-- ===== src/Git/Tests.antt =====
-- Runs of the readers of git's output, pkg/monetdroid/git.go.
use monetdroid.Prelude.{
  ◌≡◌, refl, List, [], ◌∷◌, ◌++◌, codes, arith, is_empty, has_prefix, trim_prefix,
}
use monetdroid.Prelude.Split.{split, fields}
use monetdroid.Prelude.Parts.{AllFree, split-AllFree, take-AllFree}
use monetdroid.Git.{git_worktree_list}
use monetdroid.Git.Diffs.{Chunk, diff_path}
use monetdroid.Git.Worktrees.{Printed, all_lines, entries, printed, git_worktree_list-all_lines}

abbrev dev : Printed
dev = record {
  entry = record { path = codes "/w"; branch = codes "dev" };
  others = codes "HEAD 12" ∷ [];
}

abbrev detached : Printed
detached = record {
  entry = record { path = codes "/v"; branch = [] };
  others = codes "detached" ∷ [];
}

two_lines :
    split b'\n' (printed (all_lines (dev ∷ detached ∷ [])))
    ≡ all_lines (dev ∷ detached ∷ []) ++ [] ∷ []
unfolding split
two_lines = refl

two_printed-AllFree : AllFree b'\n' (all_lines (dev ∷ detached ∷ []) ++ [] ∷ [])
two_printed-AllFree =
    rw two_lines at (split-AllFree b'\n' (printed (all_lines (dev ∷ detached ∷ []))))

git_worktree_list-all_lines_example :
    git_worktree_list (printed (all_lines (dev ∷ detached ∷ []))) ≡ entries (dev ∷ detached ∷ [])
unfolding is_empty has_prefix
git_worktree_list-all_lines_example =
    git_worktree_list-all_lines (dev ∷ detached ∷ []) (ground arith, refl, (ground arith, refl, tt))
      (take-AllFree b'\n' 7 (all_lines (dev ∷ detached ∷ []) ++ [] ∷ []) two_printed-AllFree)

abbrev chunk_a : Chunk
chunk_a = record { old_path = codes "o"; path = codes "a"; body = codes "-x" ∷ codes "+y" ∷ [] }

abbrev chunk_b : Chunk
chunk_b = record { old_path = codes "b"; path = codes "b"; body = codes "+z" ∷ [] ∷ [] }

abbrev both : List Chunk
both = chunk_a ∷ chunk_b ∷ []

-- A path with a space is cut.
space_lem : diff_path (codes "diff --git a/my file b/my file") ≡ codes "file"
unfolding diff_path fields trim_prefix has_prefix is_empty
space_lem = refl
