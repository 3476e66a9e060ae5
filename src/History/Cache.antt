-- ===== src/History/Cache.antt =====
-- The cache of overviews, sessionInfoCache of pkg/monetdroid/history.go, shows what the files hold.
use monetdroid.Prelude.{
  ◌≡◌, refl, ap, sym, ◌∙◌, ℕ, ◌==◌, ==_iff, Option, none, some, List, [], ◌∷◌, Text, arith,
  Bool-cases, Option-cases, inl, inr, same, same_iff,
}
use mathlib.Core.Option.{some-injective}
use monetdroid.Prelude.Maps.{Map, lookup, insert, lookup-insert}
use monetdroid.History.Entry.{JsonlEntry}
use monetdroid.History.Info.{SessionInfo, at_time, parse_session_info, get_info}

-- The lines of a file as it was last changed at a time, or `none` where it cannot be read.
abbrev pub Disk : Type 0
Disk = Text → ℕ → Option (List (Option JsonlEntry))

-- The overview without the cache.
abbrev pub fetched : Disk → Text → ℕ → Option SessionInfo
fetched disk path t = elim (disk path t) [
  | none ↦ none
  | some lines ↦ some (at_time t (parse_session_info lines))
]

abbrev pub get_all : Disk → Map SessionInfo → List (Text × ℕ) → Map SessionInfo
get_all disk c [] = c
get_all disk c ((path, t) ∷ calls) = get_all disk (get_info c path t (disk path t)).0 calls

abbrev IsTrue : Disk → Map SessionInfo → Type 0
IsTrue disk c =
    (path : Text) (info : SessionInfo)
    → lookup path c ≡ some info
    → fetched disk path info.mod_time ≡ some info

-- A call for a file that the cache does not hold as of the time.
abbrev missed : Disk → Map SessionInfo → Text → ℕ → Map SessionInfo × Option SessionInfo
missed disk c path t = elim (disk path t) [
  | none ↦ (c, none)
  | some lines ↦ let info = at_time t (parse_session_info lines) in (insert path info c, some info)
]

insert-IsTrue :
    (disk : Disk) (c : Map SessionInfo) (path : Text) (info : SessionInfo)
    → IsTrue disk c
    → fetched disk path info.mod_time ≡ some info
    → IsTrue disk (insert path info c)
insert-IsTrue disk c path info h e p v found =
    let step = sym (lookup-insert path p info c) ∙ found in
    elim (Bool-cases (same path p)) [
      | inl here ↦
          let is_it : info ≡ v = some-injective info v (rw here at step) in
          rw (sym ((same_iff path p).0 here), sym is_it) e
      | inr apart ↦ h p v (rw apart at step)
    ]

missed-IsTrue :
    (disk : Disk) (c : Map SessionInfo) (path : Text) (t : ℕ)
    → IsTrue disk c
    → ((missed disk c path t).1 ≡ fetched disk path t) × IsTrue disk (missed disk c path t).0
missed-IsTrue disk c path t h = elim (Option-cases (disk path t)) [
  | inl e ↦ rw (missed, fetched, e) (refl, h)
  | inr (lines, e) ↦
      rw (missed, fetched, e)
        (
          refl,
          insert-IsTrue disk c path (at_time t (parse_session_info lines)) h (rw (fetched, e) refl),
        )
]

get_info-lem :
    (disk : Disk) (c : Map SessionInfo) (path : Text) (t : ℕ)
    → IsTrue disk c
    → ((get_info c path t (disk path t)).1 ≡ fetched disk path t)
      × IsTrue disk (get_info c path t (disk path t)).0
unfolding get_info
get_info-lem disk c path t h = elim (Option-cases (lookup path c)) [
  | inl e ↦ rw (get_info, e) (missed-IsTrue disk c path t h)
  | inr (info, e) ↦
      rw (get_info, e)
        (elim (Bool-cases (info.mod_time == t)) [
          | inl hit ↦
              rw hit
                (sym (h path info e) ∙ ap (fetched disk path) ((==_iff info.mod_time t).0 hit), h)
          | inr miss ↦ rw miss (missed-IsTrue disk c path t h)
        ])
]

get_all-IsTrue :
    (disk : Disk) (c : Map SessionInfo) (calls : List (Text × ℕ))
    → IsTrue disk c
    → IsTrue disk (get_all disk c calls)
get_all-IsTrue disk c [] h = h
get_all-IsTrue disk c ((path, t) ∷ calls) h =
    get_all-IsTrue disk (get_info c path t (disk path t)).0 calls (get_info-lem disk c path t h).1

-- After any calls from an empty cache, a call for a file gives what reading the file as it was last
-- changed gives, with or without a hit, provided that the time of its last change says what a file
-- holds, the order in which the models of a result are met included.
pub get_info-transparent :
    (disk : Disk) (calls : List (Text × ℕ)) (path : Text) (t : ℕ)
    → (get_info (get_all disk [] calls) path t (disk path t)).1 ≡ fetched disk path t
unfolding lookup
get_info-transparent disk calls path t =
    (get_info-lem disk (get_all disk [] calls) path t
      (get_all-IsTrue disk [] calls (λ p info e. absurd (ground arith)))).0
