-- ===== src/DiffParse/Tests.antt =====
-- Runs of the diff parser, pkg/monetdroid/diffparse.go, and its theorems at concrete diffs.
use monetdroid.Prelude.{
  ◌≡◌, refl, false, some, List, [], ◌∷◌, ◌++◌, map, Text, codes, has_prefix, is_empty,
}
use monetdroid.DiffParse.{
  context, add, remove, DiffHunk, atoi, hunk_header, line_round, parse_hunk, parse_unified_diff,
  count_or_one,
}
use monetdroid.DiffParse.Hunk.{Change, render_change, numbered, parse_hunk-render}
use monetdroid.DiffParse.Sections.{AllGitSections}

abbrev small_header : Text
small_header = codes "@@ -1,2 +1,2 @@ func main"

abbrev small_lines : List Text
small_lines =
    codes " a"
    ∷ codes "-b"
    ∷ codes "+c"
    ∷ codes "\\ No newline at end of file"
    ∷ codes "@@ -9 +9 @@"
    ∷ []

abbrev small_hunk : DiffHunk
small_hunk = record {
  header = small_header;
  old_start = 1;
  old_count = 2;
  new_start = 1;
  new_count = 2;
  lines =
      record { line_type = context; content = codes "a"; old_line = 1; new_line = 1 }
      ∷ record { line_type = remove; content = codes "b"; old_line = 2; new_line = 0 }
      ∷ record { line_type = add; content = codes "c"; old_line = 0; new_line = 2 }
      ∷ [];
}

small_parsed : parse_hunk (small_header ∷ small_lines) ≡ (some small_hunk, 5)
unfolding parse_hunk has_prefix line_round atoi is_empty hunk_header
small_parsed = refl

abbrev some_changes : List Change
some_changes = (context, codes "x") ∷ (remove, codes "-y") ∷ (add, []) ∷ []

parse_hunk-render_example :
    parse_hunk
      (codes "@@ -7 +0,0 @@" ∷ map render_change some_changes ++ codes "diff --git a/x b/x" ∷ [])
    ≡ (
      some (record {
        header = codes "@@ -7 +0,0 @@";
        old_start = atoi (codes "7");
        old_count = count_or_one [];
        new_start = atoi (codes "0");
        new_count = count_or_one (codes "0");
        lines = numbered (atoi (codes "7")) (atoi (codes "0")) some_changes;
      }),
      4,
    )
unfolding hunk_header has_prefix
parse_hunk-render_example =
    parse_hunk-render (codes "@@ -7 +0,0 @@") (codes "7") [] (codes "0") (codes "0") some_changes
      (codes "diff --git a/x b/x" ∷ []) refl refl refl

abbrev two_sections : List (List Text)
two_sections =
    (codes "diff --git a/x b/x" ∷ codes "Binary files a/x and b/x differ" ∷ [])
    ∷ (codes "diff --git a/y b/y" ∷ [])
    ∷ []

two_are_sections : AllGitSections two_sections
unfolding has_prefix
two_are_sections = ((refl, (refl, tt)), ((refl, tt), tt))

abbrev git_diff : Text
git_diff =
    codes
      "diff --git a/x.go b/x.go\nindex 1..2 100644\n--- a/x.go\n+++ b/x.go\n@@ -1 +1 @@\n-b\n+c\ndiff --git a/y b/y\nnew file mode 100644\n"

git_diff_parsed :
    parse_unified_diff git_diff
    ≡ record {
      old_name = codes "x.go";
      new_name = codes "x.go";
      binary = false;
      hunks =
          record {
            header = codes "@@ -1 +1 @@";
            old_start = 1;
            old_count = 1;
            new_start = 1;
            new_count = 1;
            lines =
                record { line_type = remove; content = codes "b"; old_line = 1; new_line = 0 }
                ∷ record { line_type = add; content = codes "c"; old_line = 0; new_line = 1 }
                ∷ [];
          }
          ∷ [];
    }
      ∷ []
unfolding parse_unified_diff has_prefix atoi hunk_header
git_diff_parsed = refl
