-- ===== src/DiffParse/Header.antt =====
-- The header line of a hunk, pkg/monetdroid/diffparse.go.
use monetdroid.Prelude.{
  ◌≡◌, ◌≢◌, refl, true, false, some, [], ◌∷◌, ◌++◌, Text, codes, has_prefix, arith,
}
use monetdroid.Prelude.Split.{span, strip}
use monetdroid.DiffParse.{is_digit, hunk_header, some_digits, optional_count}

-- A numeral: digits, at least one.
abbrev pub AllDigits : Text → Type 0
AllDigits [] = Unit
AllDigits (c ∷ s) = (is_digit c ≡ true) × AllDigits s

abbrev pub IsNumeral : Text → Type 0
IsNumeral s = (s ≢ []) × AllDigits s

abbrev StopsDigits : Text → Type 0
StopsDigits [] = Unit
StopsDigits (c ∷ s) = is_digit c ≡ false

span-append :
    (a rest : Text) → AllDigits a → StopsDigits rest → span is_digit (a ++ rest) ≡ (a, rest)
unfolding span
span-append [] [] h k = refl
span-append [] (c ∷ rest) h k = rw k refl
span-append (c ∷ a) rest h k = rw h.0 (rw (span-append a rest h.1 k) refl)

some_digits-append :
    (a rest : Text) → IsNumeral a → StopsDigits rest → some_digits (a ++ rest) ≡ some (a, rest)
unfolding some_digits
some_digits-append [] rest h k = absurd (h.0 refl)
some_digits-append (c ∷ a) rest h k = rw (span-append (c ∷ a) rest h.1 k) refl

-- The text of a count: nothing, or a comma and a numeral.
abbrev pub count_text : Text → Text
count_text [] = []
count_text (c ∷ s) = b',' ∷ c ∷ s

optional_count-append :
    (b rest : Text)
    → AllDigits b
    → StopsDigits rest
    → has_prefix (codes ",") rest ≡ false
    → optional_count (count_text b ++ rest) ≡ (b, rest)
unfolding optional_count
optional_count-append [] rest h k no_comma = rw no_comma refl
optional_count-append (c ∷ b) rest h k no_comma =
    rw (optional_count, some_digits-append (c ∷ b) rest ((λ e. cc), h) k) refl

abbrev pub header_text : Text → Text → Text → Text → Text → Text
header_text a b c d tail =
    codes "@@ -"
    ++ (a ++ (count_text b ++ (codes " +" ++ (c ++ (count_text d ++ (codes " @@" ++ tail))))))

-- A count begins with a comma, and what follows a count with a space.
count_text_stops : (b rest : Text) → StopsDigits (count_text b ++ b' ' ∷ rest)
count_text_stops [] rest = ground arith
count_text_stops (c ∷ b) rest = ground arith

-- A header line with any four numerals, the counts left out where they are empty, and any text
-- behind it, is taken apart into these four numerals.
hunk_header-format :
    (a b c d tail : Text)
    → IsNumeral a
    → AllDigits b
    → IsNumeral c
    → AllDigits d
    → hunk_header (header_text a b c d tail) ≡ some (a, b, c, d)
unfolding hunk_header strip has_prefix
hunk_header-format a b c d tail ha hb hc hd =
    let end = codes " @@" ++ tail in
    let middle = codes " +" ++ (c ++ (count_text d ++ end)) in
    rw
      (
        some_digits-append a (count_text b ++ middle) ha (count_text_stops b _),
        optional_count-append b middle hb (ground arith) (ground arith),
        some_digits-append c (count_text d ++ end) hc (count_text_stops d _),
        optional_count-append d end hd (ground arith) (ground arith),
      )
      refl
