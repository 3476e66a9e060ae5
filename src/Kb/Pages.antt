-- ===== src/Kb/Pages.antt =====
-- Reading by lines, and the list of the files, pkg/kb/ops.go.
use monetdroid.Prelude.{
  ℕ, zero, suc, ◌≡◌, ◌≢◌, ◌<◌, ◌≤◌, refl, ap, sym, ◌∙◌, true, false, not, ◌&&◌, ◌==◌, ltb, leb,
  List, [], ◌∷◌, ◌++◌, Text, codes, same, is_empty, is_empty_iff, keep, length, take, drop,
  length-drop, arith, Bool-cases, inl, inr,
}
use monetdroid.Prelude.Split.{split, join}
use monetdroid.Prelude.Parts.{
  Free, AllFree, split-join, split-Free-append, split-AllFree, take-AllFree, drop-AllFree,
}
use monetdroid.Kb.{page_of, listed}

split-join-some :
    (sep : ℕ) (ps : List Text) → 0 < length ps → AllFree sep ps → split sep (join sep ps) ≡ ps
split-join-some sep [] h k = absurd (omega arith)
split-join-some sep (p ∷ ps) h k = split-join sep p ps k.0 k.1

take_all {ℓ} : {A : Type ℓ} (n : ℕ) (xs : List A) → length xs ≤ n → take n xs ≡ xs
take_all zero [] h = refl
take_all (suc n) [] h = refl
take_all zero (x ∷ xs) h = absurd (omega arith)
take_all (suc n) (x ∷ xs) h = ap (◌∷◌ x) (take_all n xs (omega arith))

length-take {ℓ} : {A : Type ℓ} (n : ℕ) (xs : List A) → n ≤ length xs → length (take n xs) ≡ n
length-take zero xs h = refl
length-take (suc n) [] h = absurd (omega arith)
length-take (suc n) (x ∷ xs) h = ap suc (length-take n xs (omega arith))

-- A page that begins inside the text and has a limit holds exactly the lines of the text from the
-- offset on, as many as the limit says or as there are.
page_of_lines :
    (text : Text) (offset limit : ℕ)
    → offset < length (split b'\n' text)
    → 0 < limit
    → split b'\n' (page_of text offset limit) ≡ take limit (drop offset (split b'\n' text))
unfolding page_of
page_of_lines text offset limit inside some_lines =
    let lines = split b'\n' text in
    let rest = drop offset lines in
    let whole : (offset == 0 && limit == 0) ≡ false = ground arith in
    let within : leb (length lines) offset ≡ false = ground arith in
    let limited : ltb 0 limit ≡ true = ground arith in
    let free = drop-AllFree b'\n' offset lines (split-AllFree b'\n' text) in
    let left = length-drop offset lines in
    elim (Bool-cases (ltb limit (length rest))) [
      | inl more ↦
          rw (whole, within, limited, more)
            (split-join-some b'\n' (take limit rest) (ground (arith, length-take limit rest))
              (take-AllFree b'\n' limit rest free))
      | inr last ↦
          rw (whole, within, limited, last)
            (split-join-some b'\n' rest (omega arith) free
              ∙ sym (take_all limit rest (ground arith)))
    ]

-- What `git ls-files -z` prints of some names.
abbrev pub printed : List Text → Text
printed [] = []
printed (p ∷ ps) = p ++ 0 ∷ printed ps

abbrev pub AllNames : List Text → Type 0
AllNames [] = Unit
AllNames (p ∷ ps) = (p ≢ []) × Free 0 p × AllNames ps

-- Nonempty names without a NUL byte, printed as git prints them, are listed in order, without
-- `.gitignore`.
listed-printed :
    (names : List Text)
    → AllNames names
    → listed (printed names) ≡ keep (λ e. not (same e (codes ".gitignore"))) names
unfolding listed split
listed-printed [] h = refl
listed-printed (p ∷ ps) h =
    let full : is_empty p ≡ false = ground (arith, is_empty_iff p, h.0) in
    rw (split-Free-append 0 p (printed ps) h.1) (ground (arith, full, listed-printed ps h.2))
