-- ===== src/Reviews.antt =====
-- pkg/monetdroid/review.go: the comments of a review and the message that they are sent as.
pub mod Message
mod Tests
use monetdroid.Prelude.{
  ℕ, ◌+◌, ltb, Bool, true, false, if◌then◌else◌, Option, none, some, List, [], ◌∷◌, ◌++◌, Text,
  codes, same, is_empty, length, drop_first, any,
}
use monetdroid.Prelude.Maps.{Map, lookup, insert, delete, has, get_or}
use monetdroid.Prelude.Split.{is_space}
use monetdroid.Types.{itoa}

-- The line is an int; a form that has no number gives 0.
pub record ReviewComment : Type 0 where
  pub id : Text
  pub file : Text
  pub line : ℕ
  pub side : Text
  pub text : Text
  pub content : Text

abbrev pub ReviewStore : Type 0
ReviewStore = Map (List ReviewComment)

unfoldable pub list_comments : ReviewStore → Text → List ReviewComment
unfolding get_or
list_comments rs session_id = get_or session_id rs []

unfoldable pub add_comment : ReviewStore → Text → ReviewComment → ReviewStore
unfolding list_comments
add_comment rs session_id c = insert session_id (list_comments rs session_id ++ c ∷ []) rs

abbrev pub is_comment : Text → ReviewComment → Bool
is_comment comment_id c = same c.id comment_id

unfoldable pub remove_comment : ReviewStore → Text → Text → ReviewStore
unfolding list_comments
remove_comment rs session_id comment_id =
    let comments = list_comments rs session_id in
    if any (is_comment comment_id) comments
    then insert session_id (drop_first (is_comment comment_id) comments) rs
    else rs

unfoldable pub clear_comments : ReviewStore → Text → ReviewStore
clear_comments rs session_id = delete session_id rs

unfoldable pub count_comments : ReviewStore → Text → ℕ
unfolding list_comments
count_comments rs session_id = length (list_comments rs session_id)

-- The two variables of the grouping loop, and one round of it.
pub record Groups : Type 0 where
  pub by_file : Map (List ReviewComment)
  pub file_order : List Text

unfoldable pub group_comment : Groups → ReviewComment → Groups
unfolding has get_or
group_comment g c = record {
  by_file = insert c.file (get_or c.file g.by_file [] ++ c ∷ []) g.by_file;
  file_order = if has c.file g.by_file then g.file_order else g.file_order ++ c.file ∷ [];
}

unfoldable pub group_comments : Groups → List ReviewComment → Groups
unfolding group_comment
group_comments g [] = g
group_comments g (c ∷ cs) = group_comments (group_comment g c) cs

abbrev pub no_groups : Groups
no_groups = record { by_file = []; file_order = [] }

unfoldable pub all_space : Text → Bool
all_space [] = true
all_space (c ∷ s) = if is_space c then all_space s else false

-- `strings.TrimSpace` of ASCII.
unfoldable pub format_line_content : Text → Text
unfolding all_space
format_line_content content =
    if all_space content then codes "\"" ++ content ++ codes "\"" else content

unfoldable pub format_comments : List ReviewComment → Text
unfolding format_line_content itoa
format_comments [] = []
format_comments (c ∷ cs) =
    (codes "line "
      ++ (itoa c.line ++ (codes ": " ++ (format_line_content c.content ++ codes "\n"))))
    ++ ((c.text ++ codes "\n") ++ format_comments cs)

-- `sort.Slice` of the standard library for a list and the comparison of two of its elements.
abbrev pub SortSlice : Type 0
SortSlice = (ReviewComment → ReviewComment → Bool) → List ReviewComment → List ReviewComment

-- `cs[i].Line < cs[j].Line`.
abbrev pub line_less : ReviewComment → ReviewComment → Bool
line_less c d = ltb c.line d.line

-- The loop over the files, with the sorting of each file's comments.
unfoldable pub format_files : SortSlice → Map (List ReviewComment) → List Text → Text
unfolding format_comments get_or
format_files sort by_file [] = []
format_files sort by_file (file ∷ files) =
    (codes "File " ++ (file ++ codes ":\n"))
    ++ (format_comments (sort line_less (get_or file by_file []))
        ++ format_files sort by_file files)

format_groups : SortSlice → Groups → Text
unfolding format_files
format_groups sort g = codes "Review comments:\n" ++ format_files sort g.by_file g.file_order

unfoldable pub message_of_comments : SortSlice → List ReviewComment → Text
unfolding format_groups group_comments
message_of_comments sort [] = []
message_of_comments sort (c ∷ cs) = format_groups sort (group_comments no_groups (c ∷ cs))

unfoldable pub format_review_message : SortSlice → ReviewStore → Text → Text
unfolding message_of_comments list_comments
format_review_message sort rs session_id = message_of_comments sort (list_comments rs session_id)

-- `handleReviewSend` for a session that exists: the message that is sent, if there is one, and the
-- comments afterwards.
unfoldable pub send_review : SortSlice → ReviewStore → Text → ReviewStore × Option Text
unfolding format_review_message clear_comments is_empty
send_review sort rs session_id =
    let msg = format_review_message sort rs session_id in
    if is_empty msg then (rs, none) else (clear_comments rs session_id, some msg)
