-- ===== src/Prelude/Split.antt =====
-- The functions of package strings that cut a text and put it together.
use Prim.Native.Nat.{ℕ}
use mathlib.Core.Path.{◌≡◌, refl, ap, ◌∙◌}
use mathlib.Core.Bool.{Bool, true, false, ◌||◌, ◌&&◌}
use mathlib.Core.List.{List, [], ◌∷◌, ◌++◌}
use mathlib.Core.Logic.{inl, inr}
use mathlib.Core.Option.{Option, none, some}
use monetdroid.Prelude.Tests.{◌==◌, leb, if◌then◌else◌, Bool-cases, ==_iff}
use monetdroid.Prelude.Lists.{drop, length}
use monetdroid.Prelude.Texts.{Text, has_prefix, is_empty}

-- Writes a byte in front of the first part.
abbrev pub push : ℕ → List Text → List Text
push c [] = (c ∷ []) ∷ []
push c (p ∷ ps) = (c ∷ p) ∷ ps

-- `strings.Split(s, sep)` for a separator of one byte.
unfoldable pub split : ℕ → Text → List Text
split sep [] = [] ∷ []
split sep (c ∷ s) = let parts = split sep s in if c == sep then [] ∷ parts else push c parts

-- `strings.Join(parts, sep)`.
unfoldable pub join : ℕ → List Text → Text
join sep [] = []
join sep (p ∷ []) = p
join sep (p ∷ q ∷ ps) = p ++ sep ∷ join sep (q ∷ ps)

-- `parts[:len(parts)-1]`.
abbrev pub init {ℓ} : {A : Type ℓ} → List A → List A
init [] = []
init (p ∷ []) = []
init (p ∷ q ∷ ps) = p ∷ init (q ∷ ps)

-- `parts[len(parts)-1]`, of a list that is not empty.
abbrev pub last_part : List Text → Text
last_part [] = []
last_part (p ∷ []) = p
last_part (p ∷ q ∷ ps) = last_part (q ∷ ps)

-- The white space of ASCII.
abbrev pub is_space : ℕ → Bool
is_space c = c == b' ' || (leb 9 c && leb c 13)

unfoldable pub fields_from : Text → Text → List Text
fields_from word [] = if is_empty word then [] else word ∷ []
fields_from word (c ∷ s) =
    let inside = fields_from (word ++ c ∷ []) s in
    let after = fields_from [] s in
    if is_space c then (if is_empty word then after else word ∷ after) else inside

-- `strings.Fields(s)`, for white space of ASCII.
unfoldable pub fields : Text → List Text
unfolding fields_from is_empty
fields s = fields_from [] s

-- The longest prefix of bytes that pass, and the rest.
unfoldable pub span : (ℕ → Bool) → Text → Text × Text
span p [] = ([], [])
span p (c ∷ s) = let (a, b) = span p s in if p c then (c ∷ a, b) else ([], c ∷ s)

-- The text behind a literal prefix, the literal first.
unfoldable pub strip : Text → Text → Option Text
unfolding has_prefix
strip p s = if has_prefix p s then some (drop (length p) s) else none

split-cons : (sep : ℕ) (s : Text) → (p : Text) × (ps : List Text) × (split sep s ≡ p ∷ ps)
unfolding split
split-cons sep [] = ([], [], refl)
split-cons sep (c ∷ s) = elim (Bool-cases (c == sep)) [
  | inl at ↦ ([], split sep s, rw at)
  | inr no_sep ↦ let (p, ps, e) = split-cons sep s in (c ∷ p, ps, rw (no_sep, e))
]

-- Whether the text ends with the byte: `strings.HasSuffix` for a suffix of one byte.
unfoldable pub ends_with : ℕ → Text → Bool
ends_with c [] = false
ends_with c (d ∷ []) = d == c
ends_with c (d ∷ e ∷ s) = ends_with c (e ∷ s)

-- A text that is split in two pieces: all parts but the last of the first piece stand, and the last
-- one goes on into the second piece.
pub split-append :
    (sep : ℕ) (s t : Text)
    → split sep (s ++ t) ≡ init (split sep s) ++ split sep (last_part (split sep s) ++ t)
unfolding split
split-append sep [] t = refl
split-append sep (c ∷ s) t =
    let (p, ps, e) = split-cons sep s in
    elim (Bool-cases (c == sep)) [
      | inl at ↦ rw (at, e) (ap (◌∷◌ []) (rw e at (split-append sep s t)))
      | inr inside ↦ rw (inside, e) (later p ps inside (rw e at (split-append sep s t)))
    ]
  where
    later :
        (p : Text) (ps : List Text)
        → (c == sep) ≡ false
        → split sep (s ++ t) ≡ init (p ∷ ps) ++ split sep (last_part (p ∷ ps) ++ t)
        → push c (split sep (s ++ t))
          ≡ init ((c ∷ p) ∷ ps) ++ split sep (last_part ((c ∷ p) ∷ ps) ++ t)
    later p [] inside h = rw (h, inside) refl
    later p (q ∷ ps) inside h = rw h refl

-- The parts are at least two and the last one is empty.
abbrev Ended : ℕ → Text → Type 0
Ended sep s =
    (p : Text) × (q : Text) × (ps : List Text) × (split sep s ≡ p ∷ q ∷ ps)
    × (last_part (q ∷ ps) ≡ [])

Ended-cons : (sep c : ℕ) (s : Text) → Ended sep s → Ended sep (c ∷ s)
unfolding split
Ended-cons sep c s (p, q, ps, e, h) = elim (Bool-cases (c == sep)) [
  | inl at ↦ ([], p, q ∷ ps, rw (at, e) refl, h)
  | inr inside ↦ (c ∷ p, q, ps, rw (inside, e) refl, h)
]

Ended-of-ends_with : (sep : ℕ) (s : Text) → ends_with sep s ≡ true → Ended sep s
unfolding ends_with
Ended-of-ends_with sep [] h = absurd (cc)
Ended-of-ends_with sep (d ∷ []) h = ([], [], [], unfold split in rw h refl, refl)
Ended-of-ends_with sep (d ∷ e ∷ s) h = Ended-cons sep d (e ∷ s) (Ended-of-ends_with sep (e ∷ s) h)

Ended-append : (sep : ℕ) (p s : Text) → Ended sep s → Ended sep (p ++ s)
Ended-append sep [] s h = h
Ended-append sep (c ∷ p) s h = Ended-cons sep c (p ++ s) (Ended-append sep p s h)

-- Behind a separator at the end there is an empty part.
pub last_part-split :
    (sep : ℕ) (p s : Text) → ends_with sep s ≡ true → last_part (split sep (p ++ s)) ≡ []
last_part-split sep p s h =
    let (a, b, ps, e, last) = Ended-append sep p s (Ended-of-ends_with sep s h) in rw e last

-- All parts are the parts but the last, and the last.
pub init-last_part :
    (sep : ℕ) (s : Text) → init (split sep s) ++ last_part (split sep s) ∷ [] ≡ split sep s
init-last_part sep s = let (p, ps, e) = split-cons sep s in rw e (go p ps)
  where
    go : (p : Text) (ps : List Text) → init (p ∷ ps) ++ last_part (p ∷ ps) ∷ [] ≡ p ∷ ps
    go p [] = refl
    go p (q ∷ ps) = ap (◌∷◌ p) (go q ps)

join-push :
    (sep c : ℕ) (p : Text) (ps : List Text) → join sep (push c (p ∷ ps)) ≡ c ∷ join sep (p ∷ ps)
unfolding join
join-push sep c p [] = refl
join-push sep c p (q ∷ ps) = refl

join-part : (sep : ℕ) (p : Text) (ps : List Text) → join sep ([] ∷ p ∷ ps) ≡ sep ∷ join sep (p ∷ ps)
unfolding join
join-part sep p ps = refl

-- Joining the parts of a text gives the text back.
pub join-split : (sep : ℕ) (s : Text) → join sep (split sep s) ≡ s
unfolding split join
join-split sep [] = refl
join-split sep (c ∷ s) =
    let (p, ps, e) = split-cons sep s in
    let ih = rw e at (join-split sep s) in
    elim (Bool-cases (c == sep)) [
      | inl at ↦ rw (at, e, (==_iff c sep).0 at) (join-part sep p ps ∙ ap (◌∷◌ sep) ih)
      | inr inside ↦ rw (inside, e) (join-push sep c p ps ∙ ap (◌∷◌ c) ih)
    ]

-- The parts of a text whose first piece is split on its own.
init-append :
    (xs : List Text) (y : Text) (ys : List Text) → init (xs ++ y ∷ ys) ≡ xs ++ init (y ∷ ys)
init-append [] y ys = refl
init-append (x ∷ []) y ys = refl
init-append (x ∷ x' ∷ xs) y ys = ap (◌∷◌ x) (init-append (x' ∷ xs) y ys)

last_part-append :
    (xs : List Text) (y : Text) (ys : List Text) → last_part (xs ++ y ∷ ys) ≡ last_part (y ∷ ys)
last_part-append [] y ys = refl
last_part-append (x ∷ []) y ys = refl
last_part-append (x ∷ x' ∷ xs) y ys = last_part-append (x' ∷ xs) y ys

pub init-split-append :
    (sep : ℕ) (s t : Text)
    → init (split sep (s ++ t))
      ≡ init (split sep s) ++ init (split sep (last_part (split sep s) ++ t))
init-split-append sep s t =
    let (p, ps, e) = split-cons sep (last_part (split sep s) ++ t) in
    rw (split-append sep s t, e) (init-append (init (split sep s)) p ps)

pub last_part-split-append :
    (sep : ℕ) (s t : Text)
    → last_part (split sep (s ++ t)) ≡ last_part (split sep (last_part (split sep s) ++ t))
last_part-split-append sep s t =
    let (p, ps, e) = split-cons sep (last_part (split sep s) ++ t) in
    rw (split-append sep s t, e) (last_part-append (init (split sep s)) p ps)
