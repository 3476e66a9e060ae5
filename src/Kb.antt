-- ===== src/Kb.antt =====
-- The knowledge base of pkg/kb: reading and changing its files, ops.go and kb.go.
pub mod Input
pub mod EditFormat
pub mod Changes
pub mod Pages
mod Tests
use monetdroid.Prelude.{
  ℕ, zero, suc, ◌+◌, ◌-◌, ltb, leb, ◌==◌, Bool, true, false, not, ◌&&◌, ◌||◌, if◌then◌else◌, Option,
  none, some, List, [], ◌∷◌, ◌++◌, Text, codes, same, is_empty, has_prefix, count_from, length,
  take, drop, count, keep,
}
use monetdroid.Prelude.Maps.{Map, lookup, insert, delete, has, get_or}
use monetdroid.Prelude.Split.{split, join, ends_with, init}
unfoldable pub use Input.{cut_at, parse_lines, parse_edit_input}
pub use Input.{
  Failure, read_only, not_initialized, missing, not_found, not_unique, git_failed, empty_input,
  empty_separator, no_separator, empty_old, Outcome, ok, failed, EditInput,
}

-- A byte that goes on a rune of valid UTF-8.
abbrev goes_on : ℕ → Bool
goes_on c = leb 128 c && ltb c 192

-- `strings.Count(s, old)`. The empty text is found around each rune.
unfoldable pub occurrences : Text → Text → ℕ
unfolding is_empty count_from
occurrences old s = if is_empty old then count (λ c. not (goes_on c)) s + 1 else count_from old 0 s

insert_around : Text → Text → Text
insert_around new [] = new
insert_around new (c ∷ s) =
    let rest = insert_around new s in if goes_on c then c ∷ rest else new ++ c ∷ rest

-- `strings.ReplaceAll(s, old, new)` for a nonempty `old`. The number counts the bytes left of the
-- occurrence that was replaced last.
unfoldable pub replace_from : Text → Text → ℕ → Text → Text
unfolding has_prefix
replace_from old new skip [] = []
replace_from old new (suc skip) (c ∷ s) = replace_from old new skip s
replace_from old new zero (c ∷ s) =
    let hit = has_prefix old (c ∷ s) in
    let rest = replace_from old new (if hit then length old - 1 else 0) s in
    if hit then new ++ rest else c ∷ rest

unfoldable pub replace_all : Text → Text → Text → Text
unfolding replace_from insert_around is_empty
replace_all old new s = if is_empty old then insert_around new s else replace_from old new 0 s

-- The directory of a knowledge base: whether it has a repository, and the files under their full
-- paths.
pub record Store : Type 0 where
  pub exists : Bool
  pub files : Map Text

-- What the code does not define: `filepath.Join` with the directory, the error of `git init`, and the
-- error of the git commands that commit the files under a message.
pub record Host : Type 0 where
  pub full_path : Text → Text
  pub init_error : Option Text
  pub commit_error : Map Text → Text → Option Text

unfoldable pub is_read_only : Host → Store → Bool
unfolding has
is_read_only h s = has (h.full_path (codes ".readonly")) s.files

abbrev git_result : Option Text → Option Failure
git_result none = none
git_result (some e) = some (git_failed e)

-- `autoCommit`.
unfoldable pub auto_commit : Host → Store → Text → Option Failure
auto_commit h s msg = git_result (h.commit_error s.files msg)

-- An operation's last step: the store as written, and the error of the commit.
abbrev committed : Host → Store → Text → Store × Option Failure
committed h s msg = (s, auto_commit h s msg)

unfoldable pub ensure_repo : Host → Store → Store × Option Failure
unfolding auto_commit
ensure_repo h s =
    let s1 : Store = record s { exists = true } in
    let s2 : Store = record s1 {
      files = insert (h.full_path (codes ".gitignore")) (codes ".readonly\n") s.files;
    } in
    if s.exists then (s, none) else elim h.init_error [
      | some e ↦ (s, some (git_failed e))
      | none ↦ committed h s2 (codes "init")
    ]

-- `Edit` with the content of the file.
unfoldable pub edit_content : Host → Store → Text → EditInput → Bool → Text → Store × Option Failure
unfolding replace_all occurrences auto_commit
edit_content h s path input all content =
    let n = occurrences input.old content in
    let s1 : Store = record s {
      files = insert (h.full_path path) (replace_all input.old input.new content) s.files;
    } in
    if n == 0
    then (s, some not_found)
    else if not all && ltb 1 n
    then (s, some (not_unique n))
    else committed h s1 path

unfoldable pub edit : Host → Store → Text → EditInput → Bool → Store × Option Failure
unfolding edit_content is_read_only
edit h s path input all =
    if is_read_only h s then (s, some read_only) else elim (lookup (h.full_path path) s.files) [
      | none ↦ (s, some missing)
      | some content ↦ edit_content h s path input all content
    ]

-- `Write` and `Append` behind `ensureRepo`: the new content is made of the old one, if there is one.
write_with : Host → Text → (Text → Text) → Store × Option Failure → Store × Option Failure
unfolding get_or auto_commit
write_with h path f (s, some e) = (s, some e)
write_with h path f (s, none) =
    let fp = h.full_path path in
    let s1 : Store = record s { files = insert fp (f (get_or fp s.files [])) s.files } in
    committed h s1 path

unfoldable pub write : Host → Store → Text → Text → Store × Option Failure
unfolding write_with ensure_repo is_read_only
write h s path content =
    if is_read_only h s
    then (s, some read_only)
    else write_with h path (λ _. content) (ensure_repo h s)

unfoldable pub append_to : Host → Store → Text → Text → Store × Option Failure
unfolding write_with ensure_repo is_read_only
append_to h s path content =
    if is_read_only h s
    then (s, some read_only)
    else write_with h path (λ old. old ++ content) (ensure_repo h s)

unfoldable pub remove : Host → Store → Text → Store × Option Failure
unfolding auto_commit is_read_only
remove h s path =
    let fp = h.full_path path in
    let s1 : Store = record s { files = delete fp s.files } in
    if is_read_only h s
    then (s, some read_only)
    else if not (has fp s.files)
    then (s, some missing)
    else committed h s1 (codes "rm " ++ path)

-- `os.Rename` replaces a file at the new path.
unfoldable pub move : Host → Store → Text → Text → Store × Option Failure
unfolding auto_commit is_read_only
move h s old_path new_path =
    let src = h.full_path old_path in
    let dst = h.full_path new_path in
    if is_read_only h s then (s, some read_only) else elim (lookup src s.files) [
      | none ↦ (s, some missing)
      | some content ↦
          let s1 : Store = record s { files = insert dst content (delete src s.files) } in
          committed h s1 (codes "mv " ++ (old_path ++ (codes " -> " ++ new_path)))
    ]

-- The lines from `offset` on, at most `limit` if that is not 0. Negative numbers are not modelled.
unfoldable pub page_of : Text → ℕ → ℕ → Text
unfolding split join
page_of text offset limit =
    let lines = split b'\n' text in
    let rest = drop offset lines in
    if offset == 0 && limit == 0
    then text
    else if leb (length lines) offset
    then []
    else if ltb 0 limit && ltb limit (length rest)
    then join b'\n' (take limit rest)
    else join b'\n' rest

unfoldable pub read_file : Host → Store → Text → ℕ → ℕ → Outcome Text
unfolding page_of
read_file h s path offset limit =
    if not s.exists then failed not_initialized else elim (lookup (h.full_path path) s.files) [
      | none ↦ failed missing
      | some text ↦ ok (page_of text offset limit)
    ]

-- `List` of the output of `git ls-files -z`.
unfoldable pub listed : Text → List Text
unfolding split same is_empty
listed out = keep (λ e. not (is_empty e) && not (same e (codes ".gitignore"))) (split 0 out)
