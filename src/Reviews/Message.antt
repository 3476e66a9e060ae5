-- ===== src/Reviews/Message.antt =====
-- The message of a review by its definition, pkg/monetdroid/review.go.
use monetdroid.Prelude.{
  map, count, not, ◌≡◌, Bool, false, if◌then◌else◌, List, [], ◌∷◌, ◌++◌, Text, codes, same, any,
  keep,
}
use mathlib.Core.List.{flatten}
use monetdroid.Prelude.Maps.{has}
use monetdroid.Prelude.Split.{is_space}
use monetdroid.Types.{itoa}
use monetdroid.Reviews.{SortSlice, line_less, ReviewComment, Groups}

abbrev pub in_file : Text → ReviewComment → Bool
in_file file c = same c.file file

-- The files in the order of their first comment, without those that have been seen.
abbrev pub first_files : List Text → List ReviewComment → List Text
first_files seen [] = []
first_files seen (c ∷ cs) =
    let rest = first_files (c.file ∷ seen) cs in
    if any (same c.file) seen then rest else c.file ∷ rest

Tracks : Groups → List Text → Type 0
Tracks g seen = (k : Text) → has k g.by_file ≡ any (same k) seen

-- One comment as the message shows it; a line of only white space stands in quotes.
abbrev pub shown_line : Text → Text
shown_line content =
    if any (λ c. not (is_space c)) content then content else b'"' ∷ content ++ b'"' ∷ []

abbrev pub shown_comment : ReviewComment → Text
shown_comment c =
    codes "line "
    ++ (itoa c.line
        ++ (codes ": " ++ (shown_line c.content ++ (codes "\n" ++ (c.text ++ codes "\n")))))

-- A file with comments, as the message shows them one after another.
pub record Section : Type 0 where
  pub file : Text
  pub comments : List ReviewComment

abbrev pub shown_section : Section → Text
shown_section s =
    codes "File " ++ (s.file ++ (codes ":\n" ++ flatten (map shown_comment s.comments)))

-- No comment stands before one of a smaller line.
abbrev pub IsAscending : List ReviewComment → Type 0
IsAscending [] = Unit
IsAscending (c ∷ cs) = (any (λ d. line_less d c) cs ≡ false) × IsAscending cs

-- The lists have the same comments, each as often.
abbrev pub SameComments : List ReviewComment → List ReviewComment → Type 0
SameComments cs ds = (p : ReviewComment → Bool) → count p cs ≡ count p ds

-- What `sort.Slice` is documented to do: it keeps the elements, and sorts by the comparison.
pub record SortsByLine (sort : SortSlice) : Type 0 where
  pub keeps : (cs : List ReviewComment) → SameComments (sort line_less cs) cs
  pub ascends : (cs : List ReviewComment) → IsAscending (sort line_less cs)

-- A section holds exactly the comments on its file, by ascending line.
abbrev pub AllExact : List ReviewComment → List Section → Type 0
AllExact cs [] = Unit
AllExact cs (s ∷ ss) =
    SameComments s.comments (keep (in_file s.file) cs) × IsAscending s.comments × AllExact cs ss

abbrev sections : SortSlice → List ReviewComment → List Text → List Section
sections sort cs [] = []
sections sort cs (file ∷ files) =
    record { file = file; comments = sort line_less (keep (in_file file) cs) }
    ∷ sections sort cs files
