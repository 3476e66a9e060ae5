-- ===== src/Process/Ids.antt =====
-- The ids of control requests differ, pkg/claude/process.go.
use monetdroid.Prelude.{
  ℕ, zero, suc, ◌+◌, ◌-◌, ◌*◌, ◌/◌, ◌%◌, ◌≤◌, ◌==◌, ◌<◌, ◌^◌, ltb, ◌≡◌, refl, Bool, true, not,
  if◌then◌else◌, ap, sym, ◌∙◌, [], ◌∷◌, Text, arith, Bool-cases, inl, inr,
}
use monetdroid.Types.{itoa, decimal_from}
use monetdroid.Process.{print_int, request_id_of}

-- The number that digits stand for, behind those that have been read.
abbrev value : ℕ → Text → ℕ
value n [] = n
value n (c ∷ s) = value (n * 10 + (c - b'0')) s

value-decimal_from :
    (fuel n : ℕ) (out : Text) → n ≤ fuel → value 0 (decimal_from fuel n out) ≡ value n out
unfolding decimal_from
value-decimal_from zero n out h = ap (λ k. value k out) (omega arith)
value-decimal_from (suc fuel) n out h = elim (Bool-cases (n == 0)) [
  | inl e ↦ rw e (ap (λ k. value k out) (ground arith))
  | inr e ↦ rw e (
      value-decimal_from fuel (n / 10) ((b'0' + n % 10) ∷ out) (ground arith)
      ∙ ap (λ k. value k out) (omega arith))
]

value-itoa : (n : ℕ) → value 0 (itoa n) ≡ n
unfolding itoa
value-itoa n = elim (Bool-cases (n == 0)) [
  | inl e ↦ rw e (ground arith)
  | inr e ↦ rw e (value-decimal_from n n [] (omega arith))
]

abbrev tail_of : Text → Text
tail_of [] = []
tail_of (_ ∷ s) = s

-- A numeral has no sign.
abbrev no_sign : Text → Bool
no_sign [] = true
no_sign (c ∷ _) = not (c == b'-')

decimal_from_unsigned :
    (fuel n : ℕ) (out : Text) → no_sign out ≡ true → no_sign (decimal_from fuel n out) ≡ true
unfolding decimal_from
decimal_from_unsigned zero n out h = h
decimal_from_unsigned (suc fuel) n out h = elim (Bool-cases (n == 0)) [
  | inl e ↦ rw e h
  | inr e ↦ rw e (decimal_from_unsigned fuel (n / 10) ((b'0' + n % 10) ∷ out) (ground arith))
]

itoa_unsigned : (n : ℕ) → no_sign (itoa n) ≡ true
unfolding itoa
itoa_unsigned n = elim (Bool-cases (n == 0)) [
  | inl e ↦ rw e refl
  | inr e ↦ rw e (decimal_from_unsigned n n [] refl)
]

-- The number, as its 64 bits, that a printed int stands for.
abbrev read_int : Text → ℕ
read_int s = if no_sign s then value 0 s else 2 ^ 64 - value 0 (tail_of s)

read_int-print_int : (n : ℕ) → n < 2 ^ 64 → read_int (print_int n) ≡ n
unfolding print_int
read_int-print_int n h = elim (Bool-cases (ltb n (2 ^ 63))) [
  | inl e ↦ rw (e, itoa_unsigned n) (value-itoa n)
  | inr e ↦ rw e (ap (λ k. 2 ^ 64 - k) (value-itoa (2 ^ 64 - n)) ∙ omega arith)
]

-- Requests with the same id have the same number, as the 64 bits of an int.
pub request_id_of_injective :
    (m n : ℕ) → m < 2 ^ 64 → n < 2 ^ 64 → request_id_of m ≡ request_id_of n → m ≡ n
unfolding request_id_of
request_id_of_injective m n hm hn e =
    sym (read_int-print_int m hm)
    ∙ ap (λ s. read_int (tail_of (tail_of (tail_of (tail_of s))))) e
    ∙ read_int-print_int n hn
