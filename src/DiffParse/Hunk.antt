-- ===== src/DiffParse/Hunk.antt =====
-- Hunks of pkg/monetdroid/diffparse.go: how far one reaches, how its lines are numbered, and that
-- a printed hunk is read back.
use monetdroid.Prelude.{
  ℕ, suc, ◌+◌, ◌-◌, ◌≤◌, ◌≡◌, ◌≢◌, ◌↔◌, sym, ◌∙◌, refl, ap, Bool, true, false, ◌||◌, Option, none,
  some, List, [], ◌∷◌, ◌++◌, map, Text, codes, has_prefix, length, drop, take, count, arith,
  Bool-cases, inl, inr,
}
use mathlib.Core.Path.{subst}
use mathlib.Core.Option.{some-injective}
use monetdroid.DiffParse.{
  LineType, context, add, remove, DiffLine, DiffHunk, Round, stop, skip, emit, next_line,
  line_round, hunk_body, hunk_of, parse_hunk, hunk_header, atoi, count_or_one,
}

-- A line of a hunk without its numbers.
abbrev pub Change : Type 0
Change = LineType × Text

abbrev pub change_of : DiffLine → Change
change_of l = (l.line_type, l.content)

-- The numbers that the lines of a hunk should have: those in the old file count context and
-- removals, those in the new file context and additions.
abbrev pub numbered : ℕ → ℕ → List Change → List DiffLine
numbered old new [] = []
numbered old new ((context, s) ∷ cs) =
    record { line_type = context; content = s; old_line = old; new_line = new }
    ∷ numbered (next_line old) (next_line new) cs
numbered old new ((add, s) ∷ cs) =
    record { line_type = add; content = s; old_line = 0; new_line = new }
    ∷ numbered old (next_line new) cs
numbered old new ((remove, s) ∷ cs) =
    record { line_type = remove; content = s; old_line = old; new_line = 0 }
    ∷ numbered (next_line old) new cs

-- How a diff writes a line.
abbrev pub render_change : Change → Text
render_change (context, s) = b' ' ∷ s
render_change (add, s) = b'+' ∷ s
render_change (remove, s) = b'-' ∷ s

-- The lines at which a hunk ends.
abbrev pub is_boundary : Text → Bool
is_boundary line = has_prefix (codes "@@") line || has_prefix (codes "diff --git ") line

-- The lines that a hunk goes over and drops.
abbrev pub is_marker : Text → Bool
is_marker = has_prefix (codes "\\ ")

abbrev pub EndsHunk : List Text → Type 0
EndsHunk [] = Unit
EndsHunk (line ∷ _) = is_boundary line ≡ true

abbrev pub NoBoundary : List Text → Type 0
NoBoundary [] = Unit
NoBoundary (line ∷ rest) = (is_boundary line ≡ false) × NoBoundary rest

pub hunk_body-render :
    (old new : ℕ) (cs : List Change) (rest : List Text)
    → EndsHunk rest
    → hunk_body old new (map render_change cs ++ rest) ≡ (numbered old new cs, length cs)
unfolding hunk_body has_prefix
hunk_body-render old new [] [] h = refl
hunk_body-render old new [] (line ∷ rest) h = ground arith
hunk_body-render old new ((context, s) ∷ cs) rest h =
    ground (arith, hunk_body-render (next_line old) (next_line new) cs rest h)
hunk_body-render old new ((add, s) ∷ cs) rest h =
    ground (arith, hunk_body-render old (next_line new) cs rest h)
hunk_body-render old new ((remove, s) ∷ cs) rest h =
    ground (arith, hunk_body-render (next_line old) new cs rest h)

-- What a round does to the numbers.
line_round_numbers :
    (old new : ℕ) (line : Text) (l : DiffLine) (old' new' : ℕ) (cs : List Change)
    → line_round old new line ≡ emit l old' new'
    → numbered old new (change_of l ∷ cs) ≡ l ∷ numbered old' new' cs
unfolding line_round
line_round_numbers old new line l old' new' cs h = ground arith

-- A round stops at a boundary, and drops a marker.
line_round_stops :
    (old new : ℕ) (line : Text) → (line_round old new line ≡ stop) ↔ (is_boundary line ≡ true)
unfolding line_round
line_round_stops old new line = (λ h. ground arith, λ h. ground arith)

line_round_inside :
    (old new : ℕ) (line : Text) {r : Round}
    → line_round old new line ≡ r
    → r ≢ stop
    → is_boundary line ≡ false
line_round_inside old new line e go_on = elim (Bool-cases (is_boundary line)) [
  | inl end ↦ absurd (go_on (sym e ∙ (line_round_stops old new line).1 end))
  | inr inside ↦ inside
]

line_round_skips :
    (old new : ℕ) (line : Text) → line_round old new line ≡ skip → is_marker line ≡ true
unfolding line_round
line_round_skips old new line h = ground arith

line_round_emits :
    (old new : ℕ) (line : Text) {l : DiffLine} {o n : ℕ}
    → line_round old new line ≡ emit l o n
    → is_marker line ≡ false
unfolding line_round
line_round_emits old new line h = ground arith

-- What the loop returns for these lines: it ends at the first boundary, numbers what it keeps, and
-- keeps all lines but the markers.
pub record Reads (old new : ℕ) (lines : List Text) (r : List DiffLine × ℕ) : Type 0 where
  pub inside : NoBoundary (take r.1 lines)
  pub ends : EndsHunk (drop r.1 lines)
  pub in_range : r.1 ≤ length lines
  pub numbers : r.0 ≡ numbered old new (map change_of r.0)
  pub kept : length r.0 + count is_marker (take r.1 lines) ≡ r.1

module _ (old new : ℕ) (line : Text) (rest : List Text) where
  hunk_body-stop : line_round old new line ≡ stop → hunk_body old new (line ∷ rest) ≡ ([], 0)
  unfolding hunk_body
  hunk_body-stop e = rw (e, hunk_body) refl

  hunk_body-skip :
      line_round old new line ≡ skip
      → hunk_body old new (line ∷ rest)
        ≡ ((hunk_body old new rest).0, suc (hunk_body old new rest).1)
  unfolding hunk_body
  hunk_body-skip e = rw (e, hunk_body) refl

  hunk_body-emit :
      {l : DiffLine} {o n : ℕ}
      → line_round old new line ≡ emit l o n
      → hunk_body old new (line ∷ rest) ≡ (l ∷ (hunk_body o n rest).0, suc (hunk_body o n rest).1)
  unfolding hunk_body
  hunk_body-emit e = rw (e, hunk_body) refl

  Reads-cons :
      (r : Round)
      → line_round old new line ≡ r
      → ((o n : ℕ) → Reads o n rest (hunk_body o n rest))
      → Reads old new (line ∷ rest) (hunk_body old new (line ∷ rest))
  Reads-cons stop e ih = rw (hunk_body-stop e) (record {
    inside = tt;
    ends = (line_round_stops old new line).0 e;
    in_range = omega arith;
    numbers = refl;
    kept = omega arith;
  })
  Reads-cons skip e ih =
      let h = ih old new in
      rw (hunk_body-skip e) (record {
        inside = (line_round_inside old new line e (λ k. cc), h.inside);
        ends = h.ends;
        in_range = omega (arith, h.in_range);
        numbers = h.numbers;
        kept = rw (line_round_skips old new line e) (omega (arith, h.kept));
      })
  Reads-cons (emit l o n) e ih =
      let h = ih o n in
      rw (hunk_body-emit e) (record {
        inside = (line_round_inside old new line e (λ k. cc), h.inside);
        ends = h.ends;
        in_range = omega (arith, h.in_range);
        numbers =
            ap (◌∷◌ l) h.numbers
            ∙ sym (line_round_numbers old new line l o n (map change_of (hunk_body o n rest).0) e);
        kept = rw (line_round_emits old new line e) (omega (arith, h.kept));
      })

pub hunk_body-Reads :
    (old new : ℕ) (lines : List Text) → Reads old new lines (hunk_body old new lines)
hunk_body-Reads old new [] =
    unfold hunk_body in
    record { inside = tt; ends = tt; in_range = omega arith; numbers = refl; kept = omega arith }
hunk_body-Reads old new (line ∷ rest) =
    Reads-cons old new line rest (line_round old new line) refl (λ o n. hunk_body-Reads o n rest)

hunk_of-Reads :
    (line : Text) (rest : List Text) (m : Option (Text × Text × Text × Text)) (h : DiffHunk)
    → (hunk_of line rest m).0 ≡ some h
    → (h.header ≡ line) × Reads h.old_start h.new_start rest (h.lines, (hunk_of line rest m).1 - 1)
unfolding hunk_of
hunk_of-Reads line rest none h e = cc
hunk_of-Reads line rest (some (a, b, c, d)) h e =
    let n = (hunk_body (atoi a) (atoi c) rest).1 in
    let whole : suc n - 1 ≡ n = omega arith in
    subst (λ k. (k.header ≡ line) × Reads k.old_start k.new_start rest (k.lines, suc n - 1))
      (some-injective _ h e) (refl, rw whole (hunk_body-Reads (atoi a) (atoi c) rest))

-- If `parseHunk` returns a hunk, then this has the header line, and its lines are those up to the
-- next line that begins with `@@` or `diff --git `, without the markers, each with the numbers that
-- counting on from the header's two starts gives. It consumed the header and these lines.
parse_hunk-Reads :
    (line : Text) (rest : List Text) (h : DiffHunk)
    → (parse_hunk (line ∷ rest)).0 ≡ some h
    → (h.header ≡ line)
      × Reads h.old_start h.new_start rest (h.lines, (parse_hunk (line ∷ rest)).1 - 1)
unfolding parse_hunk
parse_hunk-Reads line rest h e = elim (Bool-cases (has_prefix (codes "@@") line)) [
  | inl at ↦ rw at (hunk_of-Reads line rest (hunk_header line) h (rw at at e))
  | inr no_hunk ↦ absurd (ground arith)
]

hunk_of_progress :
    (line : Text) (rest : List Text) (m : Option (Text × Text × Text × Text))
    → (1 ≤ (hunk_of line rest m).1) × ((hunk_of line rest m).1 ≤ suc (length rest))
unfolding hunk_of
hunk_of_progress line rest none = omega arith
hunk_of_progress line rest (some (a, b, c, d)) =
    omega (arith, (hunk_body-Reads (atoi a) (atoi c) rest).in_range)

-- At a line that begins with `@@`, a call of `parseHunk` consumes at least that line and at most
-- the lines there are, whether or not it returns a hunk: the loop over hunks moves on.
parse_hunk_progress :
    (line : Text) (rest : List Text)
    → has_prefix (codes "@@") line ≡ true
    → (1 ≤ (parse_hunk (line ∷ rest)).1) × ((parse_hunk (line ∷ rest)).1 ≤ suc (length rest))
unfolding parse_hunk
parse_hunk_progress line rest at = rw at (hunk_of_progress line rest (hunk_header line))

-- A hunk that is printed under any header line that begins with `@@` and is understood, and is
-- followed by the end of the text or a line that ends a hunk, is read back: the header, the
-- changes with their numbers, and the count of lines consumed.
pub parse_hunk-render :
    (line : Text) (a b c d : Text) (cs : List Change) (rest : List Text)
    → has_prefix (codes "@@") line ≡ true
    → hunk_header line ≡ some (a, b, c, d)
    → EndsHunk rest
    → parse_hunk (line ∷ map render_change cs ++ rest) ≡ (
      some (record {
        header = line;
        old_start = atoi a;
        old_count = count_or_one b;
        new_start = atoi c;
        new_count = count_or_one d;
        lines = numbered (atoi a) (atoi c) cs;
      }),
      suc (length cs),
    )
unfolding parse_hunk
parse_hunk-render line a b c d cs rest at header ends =
    rw (at, header) (rw (hunk_body-render (atoi a) (atoi c) cs rest ends) refl)
