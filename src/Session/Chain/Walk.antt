-- ===== src/Session/Chain/Walk.antt =====
-- The walk along the parent links ends, pkg/monetdroid/session.go.
use monetdroid.Prelude.{
  ℕ, zero, suc, ◌+◌, ◌≤◌, ◌<◌, ◌≡◌, ◌≢◌, refl, true, false, not, ◌||◌, some, List, [], ◌∷◌, Text,
  is_empty, is_empty_iff, same, same_iff, same_refl, length, count, arith, Bool-cases, inl, inr,
}
use monetdroid.Prelude.Maps.{Map, get_or}
use monetdroid.Session.Chain.{mem, walk, walk_fuel, active_set}

-- The links whose line has not been visited.
abbrev unvisited : List Text → Map Text → ℕ
unvisited active m = count (λ e. not (mem e.0 active)) m

unvisited-le-length : (active : List Text) (m : Map Text) → unvisited active m ≤ length m
unvisited-le-length active [] = omega arith
unvisited-le-length active (e ∷ m) = ground (arith, unvisited-le-length active m)

unvisited-cons-le :
    (u : Text) (active : List Text) (m : Map Text) → unvisited (u ∷ active) m ≤ unvisited active m
unvisited-cons-le u active [] = omega arith
unvisited-cons-le u active (e ∷ m) = ground (arith, unvisited-cons-le u active m)

-- To go on from a line that is new, its link is used up.
unvisited-cons-lt :
    (u : Text) (active : List Text) (m : Map Text)
    → mem u active ≡ false
    → get_or u m [] ≢ []
    → unvisited (u ∷ active) m < unvisited active m
unfolding get_or
unvisited-cons-lt u active [] fresh h = absurd (h refl)
unvisited-cons-lt u active ((k, v) ∷ m) fresh h = elim (Bool-cases (same k u)) [
  | inl here ↦
      let e = (same_iff k u).0 here in ground (arith, e, same_refl u, unvisited-cons-le u active m)
  | inr there ↦
      let h' : get_or u m [] ≢ [] = rw (there, get_or) at h in
      ground (arith, there, unvisited-cons-lt u active m fresh h')
]

walk_stops :
    (fuel : ℕ) (m : Map Text) (u : Text) (active : List Text)
    → 0 < fuel
    → is_empty u ≡ true
    → walk fuel m u active ≡ some active
unfolding walk
walk_stops zero m u active h e = absurd (omega arith)
walk_stops (suc fuel) m u active h e = rw e refl

walk_total :
    (fuel : ℕ) (m : Map Text) (u : Text) (active : List Text)
    → unvisited active m + 1 < fuel
    → (r : List Text) × (walk fuel m u active ≡ some r)
unfolding walk
walk_total zero m u active h = absurd (omega arith)
walk_total (suc fuel) m u active h =
    let next = get_or u m [] in
    elim (Bool-cases (is_empty u || mem u active)) [
      | inl stops ↦ (active, rw stops refl)
      | inr goes ↦ elim (Bool-cases (is_empty next)) [
        | inl root ↦ (u ∷ active, rw goes (walk_stops fuel m next (u ∷ active) (omega arith) root))
        | inr more ↦
            let fresh : mem u active ≡ false = ground arith in
            let named : next ≢ [] = ground (arith, is_empty_iff next) in
            let (r, e) =
              walk_total fuel m next (u ∷ active)
                (omega (arith, unvisited-cons-lt u active m fresh named)) in
            (r, rw goes e)
      ]
    ]

-- The walk from any leaf through any links, also ones that form a circle, ends by its own test.
pub active_set_total : (m : Map Text) (leaf : Text) → (r : List Text) × (active_set m leaf ≡ some r)
unfolding active_set
active_set_total m leaf =
    walk_total (walk_fuel m) m leaf [] (omega (arith, unvisited-le-length [] m))
