-- ===== src/Extractor.antt =====
-- pkg/monetdroid/extractor.go: the extractor for the output of `go test`, with its patterns, and
-- the choice of an extractor.
pub mod Chunks
mod Tests
use monetdroid.Prelude.{
  ℕ, zero, suc, ◌+◌, Bool, true, false, not, ◌&&◌, ◌||◌, ◌==◌, if◌then◌else◌, Option, none, some,
  List, [], ◌∷◌, ◌++◌, Text, codes, same, is_empty, has_prefix, contains, length, drop, count,
}
use mathlib.Core.List.{reverse}
use monetdroid.Prelude.Split.{split, init, last_part, ends_with, span, strip}
use monetdroid.DiffParse.{is_digit}

pub record GoTestResult : Type 0 where
  pub name : Text
  pub status : Text
  pub duration : Text

pub record GoPkgResult : Type 0 where
  pub name : Text
  pub status : Text

pub record GoTestExtractor : Type 0 where
  pub buf : Text
  pub tests : List GoTestResult
  pub pkgs : List GoPkgResult
  pub pending : Text
  pub run_count : ℕ
  pub saw_pause : Bool

abbrev pub new_extractor : GoTestExtractor
new_extractor = record {
  buf = [];
  tests = [];
  pkgs = [];
  pending = [];
  run_count = 0;
  saw_pause = false;
}

unfoldable pub can_handle : Text → Text → Bool
unfolding contains same
can_handle tool_name command = same tool_name (codes "Bash") && contains (codes "go test") command

-- `MatchExtractor` over the one factory that is registered.
unfoldable pub match_extractor : Text → Text → Option GoTestExtractor
unfolding can_handle
match_extractor tool_name command =
    if can_handle tool_name command then some new_extractor else none

-- `\s`
abbrev is_re_space : ℕ → Bool
is_re_space c = c == b' ' || c == 9 || c == 10 || c == 12 || c == 13

-- `[\d.]`
abbrev is_seconds : ℕ → Bool
is_seconds c = is_digit c || c == b'.'

-- A nonempty longest run, and the rest.
run_of : (ℕ → Bool) → Text → Option (Text × Text)
unfolding span is_empty
run_of p s = let (a, rest) = span p s in if is_empty a then none else some (a, rest)

infixl 5 ◌>>=◌ ◌>>◌
abbrev ◌>>=◌ : {A B : Type 0} → Option A → (A → Option B) → Option B
none >>= f = none
some a >>= f = f a

abbrev ◌>>◌ : {B : Type 0} → Option (Unit {0}) → Option B → Option B
m >> k = m >>= λ _. k

abbrev guard : Bool → Option (Unit {0})
guard true = some tt
guard false = none

-- `^=== RUN\s+(.+)$` on a line: white space, and at least one byte more.
is_run_rest : Text → Bool
is_run_rest (c ∷ d ∷ s) = is_re_space c
is_run_rest _ = false

matches_run : Text → Bool
unfolding strip is_run_rest
matches_run line = elim (strip (codes "=== RUN") line) [ none ↦ false | some s ↦ is_run_rest s ]

-- `^=== PAUSE\s+`
matches_pause : Text → Bool
unfolding strip
matches_pause line = elim (strip (codes "=== PAUSE") line) [
  | none ↦ false
  | some [] ↦ false
  | some (c ∷ s) ↦ is_re_space c
]

-- `PASS`, `FAIL` or `SKIP`, and the text behind it.
outcome : Text → Option (Text × Text)
unfolding strip
outcome s = elim (strip (codes "PASS") s) [
  | some rest ↦ some (codes "PASS", rest)
  | none ↦ elim (strip (codes "FAIL") s) [
    | some rest ↦ some (codes "FAIL", rest)
    | none ↦ elim (strip (codes "SKIP") s) [ some rest ↦ some (codes "SKIP", rest) | none ↦ none ]
  ]
]

-- `(.+) \(([\d.]+)s\)$`, read from the end: no digit or point can belong to the bracket before it.
name_and_time : Text → Option (Text × Text)
unfolding strip run_of is_empty reverse
name_and_time s = do
  s1 ← strip (codes ")s") (reverse s)
  (time, s2) ← run_of is_seconds s1
  name ← strip (codes "( ") s2
  guard (not (is_empty name))
  some (reverse name, reverse time)

-- `^\s*--- (PASS|FAIL|SKIP): (.+) \(([\d.]+)s\)$`
unfoldable pub match_end : Text → Option GoTestResult
unfolding outcome name_and_time strip span
match_end line = do
  s1 ← strip (codes "--- ") (span is_re_space line).1
  (status, s2) ← outcome s1
  s3 ← strip (codes ": ") s2
  (name, time) ← name_and_time s3
  some (record { name = name; status = status; duration = time })

-- `^word\s+(\S+)\s+([\d.]+)s`
match_pkg : Text → Text → Option Text
unfolding strip run_of
match_pkg word line = do
  s1 ← strip word line
  (_, s2) ← run_of is_re_space s1
  (name, s3) ← run_of (λ c. not (is_re_space c)) s2
  (_, s4) ← run_of is_re_space s3
  (_, s5) ← run_of is_seconds s4
  _ ← strip (codes "s") s5
  some name

-- What the line says, the patterns tried in the order of the code.
pub data LineEvent : Type 0 where
  ran : LineEvent
  paused : LineEvent
  ended : GoTestResult → LineEvent
  packaged : GoPkgResult → LineEvent
  nothing : LineEvent

unfoldable pub classify : Text → LineEvent
unfolding matches_run matches_pause match_end match_pkg
classify line =
    if matches_run line then ran else if matches_pause line then paused else elim (match_end line) [
      | some t ↦ ended t
      | none ↦ elim (match_pkg (codes "ok") line) [
        | some name ↦ packaged (record { name = name; status = codes "ok" })
        | none ↦ elim (match_pkg (codes "FAIL") line) [
          | some name ↦ packaged (record { name = name; status = codes "FAIL" })
          | none ↦ nothing
        ]
      ]
    ]

unfoldable pub note_event : GoTestExtractor → LineEvent → GoTestExtractor
note_event e ran = record e { run_count = e.run_count + 1 }
note_event e paused = record e { saw_pause = true }
note_event e (ended t) = record e { tests = e.tests ++ t ∷ [] }
note_event e (packaged p) = record e { pkgs = e.pkgs ++ p ∷ [] }
note_event e nothing = e

unfoldable pub process_line : GoTestExtractor → Text → GoTestExtractor
unfolding note_event
process_line e line = note_event e (classify line)

unfoldable pub process_lines : GoTestExtractor → List Text → GoTestExtractor
process_lines e [] = e
process_lines e (line ∷ rest) = process_lines (process_line e line) rest

unfoldable pub ingest : GoTestExtractor → Text → GoTestExtractor
unfolding process_lines
ingest e chunk =
    let lines = split b'\n' (e.pending ++ chunk) in
    let e1 = record e { buf = e.buf ++ chunk; pending = [] } in
    if ends_with b'\n' chunk
    then process_lines e1 lines
    else process_lines (record e1 { pending = last_part lines }) (init lines)
