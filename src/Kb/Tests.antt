-- ===== src/Kb/Tests.antt =====
-- Runs of the knowledge base of pkg/kb.
use monetdroid.Prelude.{
  ◌≡◌, refl, true, false, if◌then◌else◌, none, some, [], ◌∷◌, ◌++◌, Text, codes, same, arith,
  has_prefix,
}
use monetdroid.Prelude.Maps.{lookup}
use monetdroid.Prelude.Split.{split, ends_with}
use monetdroid.Kb.{
  EditInput, ok, failed, empty_old, Store, Host, is_read_only, parse_edit_input, occurrences,
  replace_all, edit,
}
use monetdroid.Kb.EditFormat.{edit_text, parse_edit_input-edit_text}
use monetdroid.Kb.Changes.{Swaps, edit_once}

no_old : parse_edit_input (codes "--\n--\nx\n") ≡ failed empty_old
unfolding parse_edit_input same split ends_with
no_old = refl

all_replaced : replace_all (codes "ab") (codes "c") (codes "abxabab") ≡ codes "cxcc"
unfolding replace_all has_prefix
all_replaced = refl

around_runes :
    replace_all [] (codes "-") (codes "a" ++ 195 ∷ 164 ∷ []) ≡ codes "-a-" ++ 195 ∷ 164 ∷ codes "-"
unfolding replace_all
around_runes = refl

parse_edit_input-edit_text_example :
    parse_edit_input (edit_text (codes "--") (codes "a\nb") (codes "--"))
    ≡ ok (record { old = codes "a\nb"; new = codes "--" })
parse_edit_input-edit_text_example =
    parse_edit_input-edit_text (codes "--") (codes "a\nb") (codes "--") (ground arith)
      (refl, (refl, tt)) (ground arith) (unfold split same in refl)

abbrev host : Host
host = record { full_path = λ p. codes "/kb/" ++ p; init_error = none; commit_error = λ _ _. none }

abbrev store : Store
store = record { exists = true; files = (codes "/kb/a.md", codes "one two two") ∷ [] }

abbrev input_of : Text → EditInput
input_of old = record { old = old; new = codes "three" }

edit_once_example :
    (t : Text) × Swaps (codes "one") (codes "three") (codes "one two two") t
    × (lookup
          (codes "/kb/a.md")
          (edit host store (codes "a.md") (input_of (codes "one")) false).0.files
        ≡ (if same (host.full_path (codes "a.md")) (codes "/kb/a.md")
            then some t
            else lookup (codes "/kb/a.md") store.files))
edit_once_example =
    edit_once host store (codes "a.md") (codes "/kb/a.md") (input_of (codes "one")) false
      (codes "one two two") (unfold is_read_only same in refl) (unfold lookup same in refl)
      (ground arith) (unfold occurrences has_prefix in refl)
