-- ===== src/Kb/EditFormat.antt =====
-- The format of an edit, pkg/kb/ops.go.
use monetdroid.Prelude.{
  ℕ, ◌≡◌, ◌≢◌, refl, ap, sym, ◌∙◌, true, false, some, List, [], ◌∷◌, ◌++◌, append_assoc, Text, same,
  same_refl, is_empty, is_empty_iff, any, arith,
}
use monetdroid.Prelude.Split.{
  split, init, ends_with, last_part, split-append, init-last_part, join-split,
}
use monetdroid.Prelude.Parts.{Free, AllFree, split-Free-append, split-AllFree}
use monetdroid.Kb.{ok, cut_at, parse_lines, parse_edit_input}

cut_at-append :
    (sep : Text) (a b : List Text)
    → any (λ line. same line sep) a ≡ false
    → cut_at sep (a ++ sep ∷ b) ≡ some (a, b)
unfolding cut_at
cut_at-append sep [] b h = rw (same_refl sep) refl
cut_at-append sep (line ∷ a) b h = ground (arith, cut_at-append sep a b)

-- The text of an edit: the separator, the lines of the old content, the separator, those of the new
-- content, and the newline of a heredoc.
abbrev pub edit_body : Text → Text → Text → Text
edit_body sep old new = sep ++ b'\n' ∷ (old ++ b'\n' ∷ (sep ++ b'\n' ∷ new))

abbrev pub edit_text : Text → Text → Text → Text
edit_text sep old new = edit_body sep old new ++ b'\n' ∷ []

init-snoc : (s : Text) (c : ℕ) → init (s ++ c ∷ []) ≡ s
init-snoc [] c = refl
init-snoc (d ∷ []) c = refl
init-snoc (d ∷ e ∷ s) c = ap (◌∷◌ d) (init-snoc (e ∷ s) c)

ends_with-snoc : (s : Text) (c : ℕ) → ends_with c (s ++ c ∷ []) ≡ true
unfolding ends_with
ends_with-snoc [] c = ground arith
ends_with-snoc (d ∷ []) c = ground arith
ends_with-snoc (d ∷ e ∷ s) c = ends_with-snoc (e ∷ s) c

last_part-Free : (sep : ℕ) (ps : List Text) → AllFree sep ps → Free sep (last_part ps)
last_part-Free sep [] h = tt
last_part-Free sep (p ∷ []) h = h.0
last_part-Free sep (p ∷ q ∷ ps) h = last_part-Free sep (q ∷ ps) h.1

-- `split` of a text that is followed by a separator and more.
split-append-sep : (sep : ℕ) (s t : Text) → split sep (s ++ sep ∷ t) ≡ split sep s ++ split sep t
split-append-sep sep s t =
    split-append sep s (sep ∷ t)
    ∙ ap (◌++◌ (init (split sep s))) (
        split-Free-append sep (last_part (split sep s)) t
          (last_part-Free sep (split sep s) (split-AllFree sep s)))
    ∙ sym (append_assoc (init (split sep s)) (last_part (split sep s) ∷ []) (split sep t))
    ∙ ap (λ ps. ps ++ split sep t) (init-last_part sep s)

edit_lines :
    (sep old new : Text)
    → Free b'\n' sep
    → split b'\n' (edit_body sep old new) ≡ sep ∷ (split b'\n' old ++ sep ∷ split b'\n' new)
edit_lines sep old new free =
    split-Free-append b'\n' sep _ free
    ∙ ap (◌∷◌ sep) (
        split-append-sep b'\n' old (sep ++ b'\n' ∷ new)
        ∙ ap (◌++◌ (split b'\n' old)) (split-Free-append b'\n' sep new free))

-- An edit that is written in the format is read back: if the separator is a nonempty line that is no
-- line of the old content, and the old content is not empty, then the contents are the ones written,
-- whatever the new content holds.
pub parse_edit_input-edit_text :
    (sep old new : Text)
    → sep ≢ []
    → Free b'\n' sep
    → old ≢ []
    → any (λ line. same line sep) (split b'\n' old) ≡ false
    → parse_edit_input (edit_text sep old new) ≡ ok (record { old = old; new = new })
unfolding parse_edit_input parse_lines
parse_edit_input-edit_text [] old new named free some_old apart = absurd (named refl)
parse_edit_input-edit_text (c ∷ s) old new named free some_old apart =
    let sep = c ∷ s in
    let full : is_empty old ≡ false = ground (arith, is_empty_iff old) in
    rw
      (
        ends_with-snoc (edit_body sep old new) b'\n',
        init-snoc (edit_body sep old new) b'\n',
        edit_lines sep old new free,
        cut_at-append sep (split b'\n' old) (split b'\n' new) apart,
        join-split b'\n' old,
        join-split b'\n' new,
        full,
      )
      refl
