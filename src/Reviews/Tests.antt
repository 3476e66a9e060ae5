-- ===== src/Reviews/Tests.antt =====
-- A run of the review comments of pkg/monetdroid/review.go.
use monetdroid.Prelude.{ℕ, ◌≡◌, refl, Bool, if◌then◌else◌, List, [], ◌∷◌, Text, codes, same}
use monetdroid.Reviews.{ReviewComment, ReviewStore, SortSlice}
use monetdroid.Reviews.Message.{first_files}

abbrev comment : Text → Text → ℕ → ReviewComment
comment id file line = record {
  id = id;
  file = file;
  line = line;
  side = codes "new";
  text = codes "why?";
  content = codes " ";
}

abbrev three : List ReviewComment
three =
    comment (codes "1") (codes "b.go") 7
    ∷ comment (codes "2") (codes "a.go") 3
    ∷ comment (codes "3") (codes "b.go") 5
    ∷ []

abbrev store : ReviewStore
store = (codes "s", three) ∷ []

-- A sort by insertion.
abbrev sort_in :
    (ReviewComment → ReviewComment → Bool) → ReviewComment → List ReviewComment → List ReviewComment
sort_in less c [] = c ∷ []
sort_in less c (d ∷ ds) =
    let later = d ∷ sort_in less c ds in if less d c then later else c ∷ d ∷ ds

abbrev sort_slice : SortSlice
sort_slice less [] = []
sort_slice less (c ∷ cs) = sort_in less c (sort_slice less cs)

files_once : first_files [] three ≡ codes "b.go" ∷ codes "a.go" ∷ []
unfolding same
files_once = refl
