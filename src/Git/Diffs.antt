-- ===== src/Git/Diffs.antt =====
-- A combined diff cut by files, `splitDiffByFileMap` of pkg/monetdroid/git.go.
use monetdroid.Prelude.{
  ◌≡◌, false, if◌then◌else◌, none, some, List, [], ◌∷◌, ◌++◌, Text, codes, is_empty, has_prefix,
  trim_prefix, get_elem?, any,
}
use monetdroid.Prelude.Maps.{Map, insert}
use monetdroid.Prelude.Split.{split, join, fields, is_space}

pub record DiffSplit : Type 0 where
  pub files : Map Text
  pub current : Text
  pub current_file : Text

-- The path of a line `diff --git a/foo b/foo`.
unfoldable pub diff_path : Text → Text
unfolding fields trim_prefix
diff_path line = elim (get_elem? (fields line) 3) [
  | none ↦ []
  | some f ↦ trim_prefix (codes "b/") f
]

-- The chunk that is being read goes into the map.
unfoldable pub close_chunk : DiffSplit → Map Text
unfolding insert is_empty
close_chunk st =
    if is_empty st.current_file then st.files else insert st.current_file st.current st.files

abbrev add_line : DiffSplit → Text → DiffSplit
add_line st line = record st {
  current = if is_empty st.current then line else st.current ++ b'\n' ∷ line;
}

unfoldable pub note_diff_line : DiffSplit → Text → DiffSplit
unfolding has_prefix close_chunk diff_path is_empty
note_diff_line st line =
    add_line
      (if has_prefix (codes "diff --git ") line
        then record { files = close_chunk st; current = []; current_file = diff_path line }
        else st)
      line

abbrev note_lines : DiffSplit → List Text → DiffSplit
note_lines st [] = st
note_lines st (line ∷ lines) = note_lines (note_diff_line st line) lines

abbrev pub no_chunk : DiffSplit
no_chunk = record { files = []; current = []; current_file = [] }

unfoldable pub split_diff_by_file_map : Text → Map Text
unfolding split note_diff_line close_chunk
split_diff_by_file_map diff = close_chunk (note_lines no_chunk (split b'\n' diff))

-- The part of a combined diff that is about one file; a renamed file has two paths.
pub record Chunk : Type 0 where
  pub old_path : Text
  pub path : Text
  pub body : List Text

abbrev pub header_of : Chunk → Text
header_of c = codes "diff --git a/" ++ (c.old_path ++ (codes " b/" ++ c.path))

abbrev pub NoHeader : List Text → Type 0
NoHeader [] = Unit
NoHeader (line ∷ lines) = (has_prefix (codes "diff --git ") line ≡ false) × NoHeader lines

-- The paths hold no white space, there is a new one, and no line of the body begins a file.
abbrev pub IsChunk : Chunk → Type 0
IsChunk c =
    (any is_space c.old_path ≡ false)
    × (any is_space c.path ≡ false)
    × (is_empty c.path ≡ false)
    × NoHeader c.body

abbrev pub AllChunks : List Chunk → Type 0
AllChunks [] = Unit
AllChunks (c ∷ cs) = IsChunk c × AllChunks cs

abbrev pub lines_of : List Chunk → List Text
lines_of [] = []
lines_of (c ∷ cs) = header_of c ∷ c.body ++ lines_of cs

-- The texts of the chunks by their paths.
abbrev pub by_path : List Chunk → Map Text → Map Text
by_path [] m = m
by_path (c ∷ cs) m = by_path cs (insert c.path (join b'\n' (header_of c ∷ c.body)) m)

abbrev below : List Text → Text
below [] = []
below (line ∷ lines) = b'\n' ∷ line ++ below lines
