-- ===== src/Prelude/Slots.antt =====
-- What stands in the channels of capacity one, by the number of the channel.
use Prim.Native.Nat.{ℕ}
use mathlib.Core.Path.{◌≡◌, refl}
use mathlib.Core.List.{List, [], ◌∷◌}
use mathlib.Core.Option.{Option, none, some}
use native.Mathlib.Omega.{arith}
use monetdroid.Prelude.Tests.{◌==◌, if◌then◌else◌}

abbrev pub Slots {ℓ} : Type ℓ → Type ℓ
Slots A = List (ℕ × A)

module _ {ℓ} {A : Type ℓ} where
  unfoldable pub slot_of : ℕ → Slots A → Option A
  slot_of c [] = none
  slot_of c ((d, v) ∷ s) = if d == c then some v else slot_of c s

  unfoldable pub put : ℕ → A → Slots A → Slots A
  put c v s = (c, v) ∷ s

  unfoldable pub drain : ℕ → Slots A → Slots A
  drain c [] = []
  drain c ((d, v) ∷ s) = let rest = drain c s in if d == c then rest else (d, v) ∷ rest

  pub slot_of-put :
      (c d : ℕ) (v : A) (s : Slots A)
      → slot_of d (put c v s) ≡ (if c == d then some v else slot_of d s)
  unfolding slot_of put
  slot_of-put c d v s = refl

  pub slot_of-drain :
      (c d : ℕ) (s : Slots A) → slot_of d (drain c s) ≡ (if c == d then none else slot_of d s)
  unfolding slot_of drain
  slot_of-drain c d [] = ground arith
  slot_of-drain c d ((e, v) ∷ s) = ground (arith, slot_of-drain c d s)
