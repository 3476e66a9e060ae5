-- ===== src/DiffParse/Format.antt =====
-- The data of pkg/monetdroid/diffparse.go, and its numerals and hunk headers.
use monetdroid.Prelude.{
  ℕ, ◌+◌, ◌-◌, ◌*◌, ◌^◌, min, Bool, ◌&&◌, leb, if◌then◌else◌, Option, none, some, List, [], ◌∷◌,
  Text, codes, is_empty,
}
use monetdroid.Prelude.Split.{span, strip}

pub data LineType : Type 0 where
  context add remove : LineType

pub record DiffLine : Type 0 where
  pub line_type : LineType
  pub content : Text
  pub old_line : ℕ  -- int, as its 64 bits; 0 for additions
  pub new_line : ℕ  -- int, as its 64 bits; 0 for removals

pub record DiffHunk : Type 0 where
  pub header : Text
  pub old_start : ℕ
  pub old_count : ℕ
  pub new_start : ℕ
  pub new_count : ℕ
  pub lines : List DiffLine

pub record DiffFile : Type 0 where
  pub old_name : Text
  pub new_name : Text
  pub binary : Bool
  pub hunks : List DiffHunk

abbrev pub is_digit : ℕ → Bool
is_digit c = leb b'0' c && leb c b'9'

digits_value : ℕ → Text → ℕ
digits_value n [] = n
digits_value n (c ∷ s) = digits_value (n * 10 + (c - b'0')) s

-- `strconv.Atoi` on digits, its error dropped: a number that is out of range is the largest int.
unfoldable pub atoi : Text → ℕ
unfolding digits_value
atoi s = min (digits_value 0 s) (2 ^ 63 - 1)

infixl 5 ◌>>=◌
abbrev ◌>>=◌ : {A B : Type 0} → Option A → (A → Option B) → Option B
none >>= f = none
some a >>= f = f a

-- `\d+`
unfoldable pub some_digits : Text → Option (Text × Text)
unfolding span is_empty
some_digits s = let (a, rest) = span is_digit s in if is_empty a then none else some (a, rest)

-- `(?:,(\d+))?`
unfoldable pub optional_count : Text → Text × Text
unfolding some_digits strip
optional_count s = elim (strip (codes ",") s >>= some_digits) [ none ↦ ([], s) | some r ↦ r ]

-- The four groups of `^@@ -(\d+)(?:,(\d+))? \+(\d+)(?:,(\d+))? @@`. No byte can be matched in two
-- ways, so there is nothing to go back on.
unfoldable pub hunk_header : Text → Option (Text × Text × Text × Text)
unfolding some_digits optional_count strip
hunk_header s = do
  s1 ← strip (codes "@@ -") s
  (a, s2) ← some_digits s1
  let (b, s3) = optional_count s2
  s4 ← strip (codes " +") s3
  (c, s5) ← some_digits s4
  let (d, s6) = optional_count s5
  rest ← strip (codes " @@") s6
  some (a, b, c, d)

-- `oldCount := 1`, unless the group took part in the match.
abbrev pub count_or_one : Text → ℕ
count_or_one s = if is_empty s then 1 else atoi s
