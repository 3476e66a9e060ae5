-- ===== src/Prelude/Parts.antt =====
-- Parts without the separator: to put them together and to split is the identity.
use Prim.Native.Nat.{ℕ, zero, suc}
use mathlib.Core.Path.{◌≡◌, refl, ap, ◌∙◌}
use mathlib.Core.Bool.{false}
use mathlib.Core.List.{List, [], ◌∷◌, ◌++◌}
use mathlib.Core.Logic.{inl, inr}
use native.Mathlib.Omega.{arith}
use monetdroid.Prelude.Tests.{◌==◌, Bool-cases}
use monetdroid.Prelude.Lists.{take, drop}
use monetdroid.Prelude.Texts.{Text}
use monetdroid.Prelude.Split.{split, join, push}

-- The byte does not occur in the text.
abbrev pub Free : ℕ → Text → Type 0
Free sep [] = Unit
Free sep (c ∷ s) = ((c == sep) ≡ false) × Free sep s

abbrev pub AllFree : ℕ → List Text → Type 0
AllFree sep [] = Unit
AllFree sep (p ∷ ps) = Free sep p × AllFree sep ps

pub split-Free : (sep : ℕ) (s : Text) → Free sep s → split sep s ≡ s ∷ []
unfolding split
split-Free sep [] h = refl
split-Free sep (c ∷ s) h = rw (h.0, split-Free sep s h.1) refl

-- A part that is closed by a separator is split off.
pub split-Free-append :
    (sep : ℕ) (p s : Text) → Free sep p → split sep (p ++ sep ∷ s) ≡ p ∷ split sep s
unfolding split
split-Free-append sep [] s h = ground arith
split-Free-append sep (c ∷ p) s h = rw (h.0, split-Free-append sep p s h.1) refl

pub split-join :
    (sep : ℕ) (p : Text) (ps : List Text)
    → Free sep p
    → AllFree sep ps
    → split sep (join sep (p ∷ ps)) ≡ p ∷ ps
unfolding join
split-join sep p [] h k = split-Free sep p h
split-join sep p (q ∷ ps) h k =
    split-Free-append sep p (join sep (q ∷ ps)) h ∙ ap (◌∷◌ p) (split-join sep q ps k.0 k.1)

AllFree-push :
    (sep c : ℕ) (ps : List Text) → (c == sep) ≡ false → AllFree sep ps → AllFree sep (push c ps)
AllFree-push sep c [] e h = ((e, tt), tt)
AllFree-push sep c (p ∷ ps) e h = ((e, h.0), h.1)

pub split-AllFree : (sep : ℕ) (s : Text) → AllFree sep (split sep s)
unfolding split
split-AllFree sep [] = (tt, tt)
split-AllFree sep (c ∷ s) = elim (Bool-cases (c == sep)) [
  | inl at ↦ rw at (tt, split-AllFree sep s)
  | inr inside ↦ rw inside (AllFree-push sep c (split sep s) inside (split-AllFree sep s))
]

pub take-AllFree : (sep n : ℕ) (ps : List Text) → AllFree sep ps → AllFree sep (take n ps)
take-AllFree sep zero ps h = tt
take-AllFree sep (suc n) [] h = tt
take-AllFree sep (suc n) (p ∷ ps) h = (h.0, take-AllFree sep n ps h.1)

pub drop-AllFree : (sep n : ℕ) (ps : List Text) → AllFree sep ps → AllFree sep (drop n ps)
drop-AllFree sep zero ps h = h
drop-AllFree sep (suc n) [] h = tt
drop-AllFree sep (suc n) (p ∷ ps) h = drop-AllFree sep n ps h.1
