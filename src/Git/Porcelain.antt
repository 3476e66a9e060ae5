-- ===== src/Git/Porcelain.antt =====
-- What git prints is read back, pkg/monetdroid/git.go.
use monetdroid.Prelude.{
  ℕ, ◌≡◌, ◌≢◌, refl, ap, ◌∙◌, false, List, [], ◌∷◌, ◌++◌, map, Text, is_empty, arith,
}
use monetdroid.Prelude.Split.{split, join}
use monetdroid.Prelude.Parts.{Free, AllFree, split-join}
use monetdroid.Git.{StatusFile, trim_right, status_files, git_status_files}

-- A line of `git status --porcelain`.
abbrev pub status_line : StatusFile → Text
status_line f = f.index ∷ f.worktree ∷ b' ' ∷ f.path

abbrev pub status_text : List StatusFile → Text
status_text [] = []
status_text (f ∷ fs) = status_line f ++ b'\n' ∷ status_text fs

-- A path that is not empty and, as the two codes, has no newline in it.
abbrev pub AllPlain : List StatusFile → Type 0
AllPlain [] = Unit
AllPlain (f ∷ fs) = (f.path ≢ []) × Free b'\n' (status_line f) × AllPlain fs

trim_right-Free : (s : Text) → Free b'\n' s → trim_right s ≡ s
unfolding trim_right
trim_right-Free [] h = refl
trim_right-Free (c ∷ s) h = rw (h.0, trim_right-Free s h.1) refl

is_empty-append : (a b : Text) → is_empty b ≡ false → is_empty (a ++ b) ≡ false
is_empty-append [] b h = h
is_empty-append (c ∷ a) b h = unfold is_empty in refl

trim_right-append :
    (a b : Text) → is_empty (trim_right b) ≡ false → trim_right (a ++ b) ≡ a ++ trim_right b
unfolding trim_right is_empty
trim_right-append [] b h = refl
trim_right-append (c ∷ a) b h =
    rw (trim_right-append a b h) (ground (arith, is_empty-append a (trim_right b) h))

trim_right-newline :
    (b : Text) → is_empty (trim_right b) ≡ false → trim_right (b'\n' ∷ b) ≡ b'\n' ∷ trim_right b
unfolding trim_right
trim_right-newline b h = ground arith

trim_right-end : (a : Text) → Free b'\n' a → trim_right (a ++ b'\n' ∷ []) ≡ a
unfolding trim_right
trim_right-end [] h = ground arith
trim_right-end (c ∷ a) h = rw (h.0, trim_right-end a h.1) refl

starts_full :
    (g : StatusFile) (fs : List StatusFile)
    → is_empty (join b'\n' (map status_line (g ∷ fs))) ≡ false
unfolding join is_empty
starts_full g [] = refl
starts_full g (k ∷ fs) = refl

trim_right-status_text :
    (f : StatusFile) (fs : List StatusFile)
    → AllPlain (f ∷ fs)
    → trim_right (status_text (f ∷ fs)) ≡ join b'\n' (map status_line (f ∷ fs))
unfolding join
trim_right-status_text f [] h = trim_right-end (status_line f) h.1
trim_right-status_text f (g ∷ fs) h =
    let later = trim_right-status_text g fs h.2 in
    let full : is_empty (trim_right (status_text (g ∷ fs))) ≡ false =
      ap is_empty later ∙ starts_full g fs in
    let newline = trim_right-newline (status_text (g ∷ fs)) full in
    trim_right-append (status_line f) (b'\n' ∷ status_text (g ∷ fs))
      (ap is_empty newline ∙ unfold is_empty in refl)
    ∙ ap (◌++◌ (status_line f)) (newline ∙ ap (◌∷◌ b'\n') later)

all_lines-AllFree : (fs : List StatusFile) → AllPlain fs → AllFree b'\n' (map status_line fs)
all_lines-AllFree [] h = tt
all_lines-AllFree (f ∷ fs) h = (h.1, all_lines-AllFree fs h.2)

status_files-line :
    (x y : ℕ) (path : Text) (lines : List Text)
    → path ≢ []
    → status_files ((x ∷ y ∷ b' ' ∷ path) ∷ lines)
      ≡ record { index = x; worktree = y; path = path } ∷ status_files lines
unfolding status_files
status_files-line x y [] lines h = absurd (h refl)
status_files-line x y (c ∷ path) lines h = refl

status_files-lines : (fs : List StatusFile) → AllPlain fs → status_files (map status_line fs) ≡ fs
unfolding status_files
status_files-lines [] h = refl
status_files-lines (f ∷ fs) h =
    status_files-line f.index f.worktree f.path (map status_line fs) h.0
    ∙ ap (◌∷◌ f) (status_files-lines fs h.2)

-- The files that `git status --porcelain` prints, with nonempty paths and without newlines, are read
-- back: their codes and paths, in order.
git_status_files-status_text :
    (fs : List StatusFile) → AllPlain fs → git_status_files (status_text fs) ≡ fs
unfolding git_status_files
git_status_files-status_text [] h = unfold trim_right split status_files in refl
git_status_files-status_text (f ∷ fs) h =
    rw
      (
        trim_right-status_text f fs h,
        split-join b'\n' (status_line f) (map status_line fs) h.1 (all_lines-AllFree fs h.2),
      )
      (status_files-lines (f ∷ fs) h)
