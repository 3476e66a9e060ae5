-- ===== src/Prelude/Texts.antt =====
-- A Go string as the list of its bytes, with the tests of package strings that the code shares.
use Prim.Native.Nat.{ℕ, zero, suc, ◌-◌}
use Prim.Native.Char.{code}
use Prim.Native.String.{String}
use mathlib.Core.Path.{◌≡◌, refl}
use mathlib.Core.Logic.{◌↔◌}
use mathlib.Core.Bool.{Bool, true, false, ◌&&◌}
use mathlib.Core.List.{List, [], ◌∷◌}
use mathlib.Core.Option
use mathlib.Core.Option.{Option, none, some}
use native.Mathlib.Omega.{arith}
use monetdroid.Prelude.Tests.{◌==◌, if◌then◌else◌}
use monetdroid.Prelude.Lists.{drop, length}

abbrev pub Text : Type 0
Text = List ℕ

-- The code points of a literal, which are its bytes where it is ASCII.
abbrev pub codes : String → Text
codes String.[] = []
codes (String.◌∷◌ c s) = code c ∷ codes s

-- Equality of strings.
unfoldable pub same : Text → Text → Bool
same [] [] = true
same (a ∷ s) (b ∷ t) = a == b && same s t
same _ _ = false

unfoldable pub is_empty : Text → Bool
is_empty [] = true
is_empty (_ ∷ _) = false

-- `strings.HasPrefix(s, p)`, the prefix first.
unfoldable pub has_prefix : Text → Text → Bool
has_prefix [] s = true
has_prefix (c ∷ p) [] = false
has_prefix (c ∷ p) (d ∷ s) = c == d && has_prefix p s

-- `strings.TrimPrefix(s, p)`.
unfoldable pub trim_prefix : Text → Text → Text
unfolding has_prefix
trim_prefix p s = if has_prefix p s then drop (length p) s else s

pub same_refl : (s : Text) → same s s ≡ true
unfolding same
same_refl [] = refl
same_refl (a ∷ s) = ground (arith, same_refl s)

same_sound : (s t : Text) → same s t ≡ true → s ≡ t
unfolding same
same_sound [] [] h = refl
same_sound (a ∷ s) (b ∷ t) h = ground (arith, same_sound s t)
same_sound _ _ h = ground arith

pub same_iff : (s t : Text) → (same s t ≡ true) ↔ (s ≡ t)
same_iff s t = (same_sound s t, λ e. rw e (same_refl t))

pub is_empty_iff : (s : Text) → (is_empty s ≡ true) ↔ (s ≡ [])
unfolding is_empty
is_empty_iff [] = ground arith
is_empty_iff (_ ∷ _) = ground arith

-- `strings.Index(s, sub)`, the text searched for first.
unfoldable pub index_of : Text → Text → Option ℕ
unfolding has_prefix is_empty
index_of sub [] = if is_empty sub then some 0 else none
index_of sub (c ∷ s) = if has_prefix sub (c ∷ s) then some 0 else Option.map suc (index_of sub s)

-- `strings.Contains(s, sub)`, the text searched for first.
unfoldable pub contains : Text → Text → Bool
unfolding index_of
contains sub s = elim (index_of sub s) [ none ↦ false | some _ ↦ true ]

-- `strings.Count(s, sub)` for a nonempty `sub`: the occurrences that do not overlap, from the left.
-- The number counts the bytes left of the occurrence that was counted last.
unfoldable pub count_from : Text → ℕ → Text → ℕ
unfolding has_prefix
count_from sub skip [] = 0
count_from sub (suc skip) (c ∷ s) = count_from sub skip s
count_from sub zero (c ∷ s) =
    let hit = has_prefix sub (c ∷ s) in
    let rest = count_from sub (if hit then length sub - 1 else 0) s in
    if hit then suc rest else rest
