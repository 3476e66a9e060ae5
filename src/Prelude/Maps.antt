-- ===== src/Prelude/Maps.antt =====
-- A Go map from strings as an association list. `insert` is `m[k] = v` and `delete` the built-in.
use mathlib.Core.Path.{◌≡◌, refl}
use mathlib.Core.Bool.{Bool, true, false, ◌&&◌, ◌||◌, not}
use mathlib.Core.List.{List, [], ◌∷◌}
use mathlib.Core.Option.{Option, none, some}
use native.Mathlib.Omega.{arith}
use Prim.Native.Nat.{◌+◌}
use mathlib.Core.Logic.{inl, inr}
use monetdroid.Prelude.Tests.{if◌then◌else◌, Bool-cases}
use monetdroid.Prelude.Lists.{length}
use monetdroid.Prelude.Texts.{Text, same, same_iff}

abbrev pub Map {ℓ} : Type ℓ → Type ℓ
Map V = List (Text × V)

module _ {ℓ} {V : Type ℓ} where
  unfoldable pub lookup : Text → Map V → Option V
  lookup k [] = none
  lookup k ((j, v) ∷ m) = if same j k then some v else lookup k m

  unfoldable pub insert : Text → V → Map V → Map V
  insert k v [] = (k, v) ∷ []
  insert k v ((j, w) ∷ m) = if same j k then (k, v) ∷ m else (j, w) ∷ insert k v m

  unfoldable pub delete : Text → Map V → Map V
  delete k [] = []
  delete k ((j, w) ∷ m) = let rest = delete k m in if same j k then rest else (j, w) ∷ rest

  -- `_, ok := m[k]`.
  unfoldable pub has : Text → Map V → Bool
  unfolding lookup
  has k m = elim (lookup k m) [ none ↦ false | some _ ↦ true ]

  -- `m[k]` with the zero value `z` of a missing key.
  unfoldable pub get_or : Text → Map V → V → V
  unfolding lookup
  get_or k m z = elim (lookup k m) [ none ↦ z | some v ↦ v ]

  -- Some entry's value passes; the loops over a map that return at the first hit.
  unfoldable pub any_value : (V → Bool) → Map V → Bool
  any_value p [] = false
  any_value p ((j, w) ∷ m) = p w || any_value p m

  pub lookup-insert :
      (k j : Text) (v : V) (m : Map V)
      → lookup j (insert k v m) ≡ (if same k j then some v else lookup j m)
  unfolding lookup insert
  lookup-insert k j v [] = refl
  lookup-insert k j v ((i, w) ∷ m) =
      ground (arith, same_iff k j, same_iff i k, same_iff i j, lookup-insert k j v m)

  pub lookup-delete :
      (k j : Text) (m : Map V) → lookup j (delete k m) ≡ (if same k j then none else lookup j m)
  unfolding lookup delete
  lookup-delete k j [] = ground arith
  lookup-delete k j ((i, w) ∷ m) =
      ground (arith, same_iff k j, same_iff i k, same_iff i j, lookup-delete k j m)

  -- No key stands twice.
  abbrev pub IsUnique : Map V → Type 0
  IsUnique [] = Unit
  IsUnique ((k, v) ∷ m) = (has k m ≡ false) × IsUnique m

  pub has-insert : (k j : Text) (v : V) (m : Map V) → has j (insert k v m) ≡ (same k j || has j m)
  unfolding has
  has-insert k j v m = ground (arith, lookup-insert k j v m)

  pub has-delete : (k j : Text) (m : Map V) → has j (delete k m) ≡ (not (same k j) && has j m)
  unfolding has
  has-delete k j m = ground (arith, lookup-delete k j m)

  pub insert-IsUnique : (k : Text) (v : V) (m : Map V) → IsUnique m → IsUnique (insert k v m)
  unfolding insert
  insert-IsUnique k v [] h = (unfold has in refl, tt)
  insert-IsUnique k v ((j, w) ∷ m) h = elim (Bool-cases (same j k)) [
    | inl here ↦ rw here (rw ((same_iff j k).0 here) at h.0, h.1)
    | inr there ↦ rw there (
      ground (arith, has-insert k j v m, h.0, same_iff k j, same_iff j k),
      insert-IsUnique k v m h.1,
    )
  ]

  pub delete-IsUnique : (k : Text) (m : Map V) → IsUnique m → IsUnique (delete k m)
  unfolding delete
  delete-IsUnique k [] h = tt
  delete-IsUnique k ((j, w) ∷ m) h = elim (Bool-cases (same j k)) [
    | inl here ↦ rw here (delete-IsUnique k m h.1)
    | inr there ↦ rw there (ground (arith, has-delete k j m, h.0), delete-IsUnique k m h.1)
  ]

  pub delete_missing : (k : Text) (m : Map V) → has k m ≡ false → delete k m ≡ m
  unfolding delete has
  delete_missing k [] h = refl
  delete_missing k ((j, w) ∷ m) h = ground (arith, delete_missing k m)

  pub length-insert :
      (k : Text) (v : V) (m : Map V) → has k m ≡ false → length (insert k v m) ≡ length m + 1
  unfolding insert has
  length-insert k v [] h = omega arith
  length-insert k v ((j, w) ∷ m) h = ground (arith, length-insert k v m)

  pub length-delete :
      (k : Text) (m : Map V) → IsUnique m → has k m ≡ true → length (delete k m) + 1 ≡ length m
  unfolding delete has
  length-delete k [] u h = absurd (ground arith)
  length-delete k ((j, w) ∷ m) u h = elim (Bool-cases (same j k)) [
    | inl here ↦ rw here (ground (arith, delete_missing k m (rw ((same_iff j k).0 here) at u.0)))
    | inr there ↦ rw there (ground (arith, length-delete k m u.1))
  ]
