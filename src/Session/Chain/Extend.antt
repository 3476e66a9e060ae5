-- ===== src/Session/Chain/Extend.antt =====
-- A message that arrives extends the active branch, pkg/monetdroid/session.go.
use monetdroid.Prelude.{
  ℕ, zero, suc, ◌+◌, ◌≡◌, ◌≢◌, refl, true, false, ◌||◌, some, List, [], ◌∷◌, Text, is_empty,
  is_empty_iff, same, same_iff, same_refl, length, arith, Bool-cases, inl, inr,
}
use mathlib.Core.Path.{subst}
use mathlib.Core.Option.{some-injective}
use monetdroid.Prelude.Maps.{Map, has, get_or, insert, lookup-insert}
use monetdroid.Session.Chain.{Chain, mem, walk, active_set, advance_tip}

-- The first set has the members of the second, and `u`.
abbrev pub Adds : Text → List Text → List Text → Type 0
Adds u s t = (k : Text) → mem k s ≡ (same k u || mem k t)

-- A line that has no link was the last one of a walk.
get_or_unlinked : (u : Text) (m : Map Text) → has u m ≡ false → get_or u m [] ≡ []
unfolding has get_or
get_or_unlinked u m h = ground arith

get_or-insert_ne :
    (u t x : Text) (m : Map Text) → same u x ≡ false → get_or x (insert u t m) [] ≡ get_or x m []
unfolding get_or
get_or-insert_ne u t x m ne = ground (arith, lookup-insert u x t m)

-- A walk that comes to the new line by the old links ends there.
at_new :
    (fuel : ℕ) (u : Text) (m : Map Text) (x : Text) (new old r : List Text)
    → x ≡ u
    → has u m ≡ false
    → Adds u new old
    → walk fuel m (get_or x m []) (x ∷ old) ≡ some r
    → Adds u new r
unfolding walk
at_new zero u m x new old r here fresh a e = absurd (ground arith)
at_new (suc fuel) u m x new old r here fresh a e =
    let root : is_empty (get_or x m []) ≡ true = at_root in
    let all : x ∷ old ≡ r = some-injective _ r (rw root at e) in
    subst (Adds u new) all (λ k. ground (arith, a k, here, same_iff k x, same_iff k u))
  where
    at_root : is_empty (get_or x m []) ≡ true
    at_root = rw (here, get_or_unlinked u m fresh) refl

-- With the new link, a walk that has visited the new line goes the way of the old one.
walk-insert :
    (fuel : ℕ) (u t : Text) (m : Map Text) (x : Text) (new old r : List Text)
    → has u m ≡ false
    → Adds u new old
    → walk fuel m x old ≡ some r
    → (r' : List Text) × (walk fuel (insert u t m) x new ≡ some r') × Adds u r' r
unfolding walk
walk-insert zero u t m x new old r fresh a e = absurd (ground arith)
walk-insert (suc fuel) u t m x new old r fresh a e = elim (Bool-cases (is_empty x || mem x old)) [
  | inl stops ↦
      let r_old : old ≡ r = some-injective old r (rw stops at e) in
      let stops' : (is_empty x || mem x new) ≡ true = ground (arith, a x) in
      (new, rw stops' refl, subst (Adds u new) r_old a)
  | inr goes ↦
      let e' = rw goes at e in
      elim (Bool-cases (same x u)) [
        | inl here ↦
            let stops' : (is_empty x || mem x new) ≡ true = ground (arith, a x) in
            (new, rw stops' refl, at_new fuel u m x new old r ((same_iff x u).0 here) fresh a e')
        | inr apart ↦
            let apart' : same u x ≡ false = ground (arith, same_iff u x, same_iff x u) in
            let goes' : (is_empty x || mem x new) ≡ false = ground (arith, a x) in
            let (r', w, a') =
              walk-insert fuel u t m (get_or x m []) (x ∷ new) (x ∷ old) r fresh
                (λ k. ground (arith, a k)) e' in
            (r', rw (goes', get_or-insert_ne u t x m apart') w, a')
      ]
]

length-insert : (u t : Text) (m : Map Text) → has u m ≡ false → length (insert u t m) ≡ length m + 1
unfolding insert has
length-insert u t [] h = omega arith
length-insert u t ((k, v) ∷ m) h = elim (Bool-cases (same k u)) [
  | inl here ↦ absurd (ground arith)
  | inr there ↦ rw there (omega (arith, length-insert u t m (rw (there, has) at h)))
]

get_or-insert_self : (u t : Text) (m : Map Text) → get_or u (insert u t m) [] ≡ t
unfolding get_or
get_or-insert_self u t m = ground (arith, lookup-insert u u t m, same_refl u)

-- When a line arrives with a nonempty uuid that has no link yet, exactly this line joins the
-- active branch: the lines that were active stay so, and no other line becomes active. The tip may
-- stand anywhere in the tree before.
pub advance_tip-active_set :
    (c : Chain) (uuid : Text) (r : List Text)
    → uuid ≢ []
    → has uuid c.line_parents ≡ false
    → active_set c.line_parents c.tip ≡ some r
    → (r' : List Text) × (active_set (advance_tip c uuid).line_parents (advance_tip c uuid).tip
        ≡ some r')
      × Adds uuid r' r
unfolding active_set walk advance_tip
advance_tip-active_set c uuid r named fresh e =
    let m = c.line_parents in
    let full : is_empty uuid ≡ false = ground (arith, is_empty_iff uuid) in
    let (r', w, a) =
      walk-insert (length m + 2) uuid c.tip m c.tip (uuid ∷ []) [] r fresh (λ k. ground arith) e in
    let fuel : length (insert uuid c.tip m) + 2 ≡ suc (length m + 2) =
      omega (arith, length-insert uuid c.tip m fresh) in
    (r', rw (full, fresh, fuel, full, get_or-insert_self uuid c.tip m) w, a)
