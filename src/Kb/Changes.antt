-- ===== src/Kb/Changes.antt =====
-- What the operations of pkg/kb/ops.go change.
use monetdroid.Prelude.{
  ℕ, zero, suc, ◌-◌, ◌≡◌, ◌≢◌, refl, ap, ◌∙◌, Bool, true, false, if◌then◌else◌, ◌==◌, Option, some,
  List, [], ◌∷◌, ◌++◌, map, Text, same, is_empty, has_prefix, count_from, length, drop, arith,
  Bool-cases, inl, inr,
}
use monetdroid.Prelude.Maps.{lookup, lookup-insert}
use monetdroid.Kb.{
  EditInput, Failure, read_only, not_found, not_unique, Store, Host, is_read_only, occurrences,
  replace_from, replace_all, edit, edit_content, write, append_to, remove, move,
}

has_prefix-split : (p s : Text) → has_prefix p s ≡ true → s ≡ p ++ drop (length p) s
unfolding has_prefix
has_prefix-split [] s h = refl
has_prefix-split (c ∷ p) [] h = absurd (ground arith)
has_prefix-split (c ∷ p) (d ∷ s) h = ground (arith, has_prefix-split p s)

-- Behind the last occurrence nothing is replaced.
replace_from_none :
    (old new : Text) (skip : ℕ) (s : Text)
    → count_from old skip s ≡ 0
    → replace_from old new skip s ≡ drop skip s
unfolding replace_from count_from
replace_from_none old new zero [] h = refl
replace_from_none old new (suc skip) [] h = refl
replace_from_none old new (suc skip) (c ∷ s) h = replace_from_none old new skip s h
replace_from_none old new zero (c ∷ s) h = elim (Bool-cases (has_prefix old (c ∷ s))) [
  | inl hit ↦ absurd (ground arith)
  | inr miss ↦ rw miss (ap (◌∷◌ c) (replace_from_none old new zero s (rw miss at h)))
]

-- A text with the one occurrence of `old` in it, and the text with `new` in its place.
pub record Swaps (old new s t : Text) : Type 0 where
  pub before : Text
  pub after : Text
  pub found : s ≡ before ++ (old ++ after)
  pub put : t ≡ before ++ (new ++ after)

replace_from_once :
    (d : ℕ) (o new s : Text)
    → count_from (d ∷ o) 0 s ≡ 1
    → Swaps (d ∷ o) new s (replace_from (d ∷ o) new 0 s)
unfolding replace_from count_from
replace_from_once d o new [] h = absurd (omega arith)
replace_from_once d o new (c ∷ s) h = elim (Bool-cases (has_prefix (d ∷ o) (c ∷ s))) [
  | inl hit ↦
      let left : suc (length o) - 1 ≡ length o = omega arith in
      let rest = replace_from_none (d ∷ o) new (length o) s (ground arith) in
      rw hit (record {
        before = [];
        after = drop (length o) s;
        found = has_prefix-split (d ∷ o) (c ∷ s) hit;
        put = ap (λ n. new ++ replace_from (d ∷ o) new n s) left ∙ ap (◌++◌ new) rest;
      })
  | inr miss ↦
      let r = replace_from_once d o new s (rw miss at h) in
      rw miss (record {
        before = c ∷ r.before;
        after = r.after;
        found = ap (◌∷◌ c) r.found;
        put = ap (◌∷◌ c) r.put;
      })
]

replace_all_once :
    (old new s : Text) → old ≢ [] → occurrences old s ≡ 1 → Swaps old new s (replace_all old new s)
unfolding replace_all occurrences is_empty
replace_all_once [] new s h e = absurd (h refl)
replace_all_once (d ∷ o) new s h e = replace_from_once d o new s e

-- An edit of a writable store whose file holds the old text, which is not empty, exactly once
-- replaces it there, whether or not all occurrences were asked for, and changes no other file.
pub edit_once :
    (h : Host) (s : Store) (path k : Text) (input : EditInput) (all : Bool) (content : Text)
    → is_read_only h s ≡ false
    → lookup (h.full_path path) s.files ≡ some content
    → input.old ≢ []
    → occurrences input.old content ≡ 1
    → (t : Text) × Swaps input.old input.new content t
      × (lookup k (edit h s path input all).0.files
          ≡ (if same (h.full_path path) k then some t else lookup k s.files))
unfolding edit edit_content
edit_once h s path k input all content writable here full once = (
  replace_all input.old input.new content,
  replace_all_once input.old input.new content full once,
  rw (writable, here, once) ground
      (arith, lookup-insert (h.full_path path) k (replace_all input.old input.new content) s.files),
)

-- An edit of a writable store that may replace one occurrence only leaves the store as it is if
-- the file holds the old text not at all or more than once, and the error says which, with the
-- number of occurrences.
edit_not_once :
    (h : Host) (s : Store) (path : Text) (input : EditInput) (content : Text)
    → is_read_only h s ≡ false
    → lookup (h.full_path path) s.files ≡ some content
    → occurrences input.old content ≢ 1
    → edit h s path input false ≡ (
      s,
      some (
          if occurrences input.old content == 0
          then not_found
          else not_unique (occurrences input.old content)),
    )
unfolding edit edit_content
edit_not_once h s path input content writable here n = rw (writable, here) (ground arith)

-- The operations that change a store.
pub data KbOp : Type 0 where
  edits : Text → EditInput → Bool → KbOp
  writes : Text → Text → KbOp
  appends : Text → Text → KbOp
  removes : Text → KbOp
  moves : Text → Text → KbOp

unfoldable pub kb_step : Host → Store → KbOp → Store × Option Failure
unfolding edit write append_to remove move
kb_step h s (edits path input all) = edit h s path input all
kb_step h s (writes path content) = write h s path content
kb_step h s (appends path content) = append_to h s path content
kb_step h s (removes path) = remove h s path
kb_step h s (moves old_path new_path) = move h s old_path new_path

kb_step_read_only :
    (h : Host) (s : Store) (op : KbOp)
    → is_read_only h s ≡ true
    → kb_step h s op ≡ (s, some read_only)
unfolding kb_step
kb_step_read_only h s (edits path input all) r = rw r refl
kb_step_read_only h s (writes path content) r = rw r refl
kb_step_read_only h s (appends path content) r = rw r refl
kb_step_read_only h s (removes path) r = rw r refl
kb_step_read_only h s (moves old_path new_path) r = rw r refl

unfoldable pub kb_run : Host → Store → List KbOp → Store × List (Option Failure)
unfolding kb_step
kb_run h s [] = (s, [])
kb_run h s (op ∷ ops) =
    let (s1, r) = kb_step h s op in let (s2, rs) = kb_run h s1 ops in (s2, r ∷ rs)

-- While a store is marked read-only, no sequence of operations changes it, and each of them fails for
-- that reason: none of them removes the mark.
kb_run_read_only :
    (h : Host) (s : Store) (ops : List KbOp)
    → is_read_only h s ≡ true
    → (((kb_run h s ops).0 ≡ s)) × ((kb_run h s ops).1 ≡ map (λ _. some read_only) ops)
unfolding kb_run
kb_run_read_only h s [] r = (refl, refl)
kb_run_read_only h s (op ∷ ops) r =
    let (same_store, fails) = kb_run_read_only h s ops r in
    rw (kb_step_read_only h s op r) (same_store, ap (◌∷◌ (some read_only)) fails)
