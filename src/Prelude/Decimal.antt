-- ===== src/Prelude/Decimal.antt =====
-- Laws of decimal digits.
use Prim.Native.Nat.{ℕ, zero, suc, ◌+◌, ◌/◌, ◌%◌, ◌≤◌, ◌<◌}
use mathlib.Core.Path.{◌≡◌, refl, ap, ◌∙◌}
use mathlib.Core.Logic.{inl, inr}
use mathlib.Core.Bool.{true, false}
use mathlib.Core.List.{[], ◌∷◌}
use native.Mathlib.Omega.{arith}
use tiny_crm.Prelude.Tests.{ltb, Bool-cases, lt→ltb, ltb→lt}
use tiny_crm.Prelude.Lists.{All, length}
use tiny_crm.Prelude.Trim.{keep_end_clean}
use tiny_crm.Prelude.Texts.{
  Text, is_digit, is_space, digits_from, nat_text, value_from, pad_start, trim, trim_start,
  trim_end,
}

-- All characters are decimal digits.
abbrev pub Digits : Text → Type 0
Digits s = All (λ c. is_digit c ≡ true) s

digits_from-Digits : (fuel n : ℕ) (out : Text) → Digits out → Digits (digits_from fuel n out)
unfolding digits_from
digits_from-Digits zero n out d = d
digits_from-Digits (suc fuel) n out d = elim (Bool-cases (ltb n 10)) [
  | inl e ↦ rw e (ground arith, d)
  | inr e ↦ rw e (digits_from-Digits fuel (n / 10) ((48 + n % 10) ∷ out) (ground arith, d))
]

pub nat_text-Digits : (n : ℕ) → Digits (nat_text n)
unfolding nat_text
nat_text-Digits n = digits_from-Digits (suc n) n [] tt

value_from-digits_from :
    (fuel n : ℕ) (out : Text) → n < fuel → value_from 0 (digits_from fuel n out) ≡ value_from n out
unfolding value_from digits_from
value_from-digits_from zero n out h = absurd (omega arith)
value_from-digits_from (suc fuel) n out h = elim (Bool-cases (ltb n 10)) [
  | inl e ↦ rw e (ap (λ k. value_from k out) (omega arith))
  | inr e ↦ rw e (
      value_from-digits_from fuel (n / 10) ((48 + n % 10) ∷ out) (ground arith)
      ∙ ap (λ k. value_from k out) (omega arith))
]

-- A printed number has its own value.
pub value_from-nat_text : (n : ℕ) → value_from 0 (nat_text n) ≡ n
unfolding nat_text
value_from-nat_text n =
    value_from-digits_from (suc n) n [] (omega arith) ∙ unfold value_from in refl

digits_from-filled :
    (fuel n : ℕ) (out : Text) → 1 ≤ length out → 1 ≤ length (digits_from fuel n out)
unfolding digits_from
digits_from-filled zero n out h = h
digits_from-filled (suc fuel) n out h = elim (Bool-cases (ltb n 10)) [
  | inl e ↦ rw e (omega arith)
  | inr e ↦ rw e (digits_from-filled fuel (n / 10) ((48 + n % 10) ∷ out) (omega arith))
]

pub nat_text-filled : (n : ℕ) → 1 ≤ length (nat_text n)
unfolding nat_text digits_from
nat_text-filled n = elim (Bool-cases (ltb n 10)) [
  | inl e ↦ rw e (omega arith)
  | inr e ↦ rw e (digits_from-filled n (n / 10) ((48 + n % 10) ∷ []) (omega arith))
]

one_digit : (n : ℕ) → n < 10 → nat_text n ≡ (48 + n) ∷ []
unfolding nat_text digits_from
one_digit n h = rw (lt→ltb n 10 h)

two_digits : (n : ℕ) → 10 ≤ n → n < 100 → nat_text n ≡ (48 + n / 10) ∷ (48 + n % 10) ∷ []
unfolding nat_text digits_from
two_digits zero h k = absurd (omega arith)
two_digits (suc m) h k =
    let e : ltb (suc m) 10 ≡ false = ground arith in
    rw e (rw (lt→ltb (suc m / 10) 10 (omega arith)))

hundred_digits : length (nat_text 100) ≤ 3
unfolding nat_text digits_from
hundred_digits = omega arith

-- A percentage has three digits at most.
pub length-nat_text-le : (n : ℕ) → n ≤ 100 → length (nat_text n) ≤ 3
length-nat_text-le n h = elim (Bool-cases (ltb n 10)) [
  | inl e ↦ rw (one_digit n (ltb→lt n 10 e)) (omega arith)
  | inr e ↦ elim (Bool-cases (ltb n 100)) [
    | inl k ↦ rw (two_digits n (ground arith) (ltb→lt n 100 k)) (omega arith)
    | inr k ↦ rw (hundred (ground arith)) hundred_digits
  ]
]
  where
    hundred : 100 ≤ n → n ≡ 100
    hundred k = omega arith

-- Two places show any number below a hundred.
pub pad_start-nat_text :
    (n : ℕ)
    → n < 100
    → (length (pad_start (nat_text n) 2 b'0') ≡ 2)
      × (value_from 0 (pad_start (nat_text n) 2 b'0') ≡ n)
      × Digits (pad_start (nat_text n) 2 b'0')
unfolding value_from
pad_start-nat_text n h = elim (Bool-cases (ltb n 10)) [
  | inl e ↦ rw (one_digit n (ltb→lt n 10 e)) (refl, omega arith, (refl, (ground arith, tt)))
  | inr e ↦
      rw (two_digits n (ground arith) h) (refl, omega arith, (ground arith, (ground arith, tt)))
]

pub digit_clean : (c : ℕ) → is_digit c ≡ true → is_space c ≡ false
unfolding is_space
digit_clean c h = ground arith

-- A text without spaces is trimmed.
abbrev pub Solid : Text → Type 0
Solid s = All (λ c. is_space c ≡ false) s

trim_end_of_Solid : (s : Text) → Solid s → trim_end s ≡ s
unfolding trim_end
trim_end_of_Solid [] h = refl
trim_end_of_Solid (c ∷ s) h = rw (trim_end_of_Solid s h.1) (keep_end_clean c s h.0)

trim_start_of_Solid : (s : Text) → Solid s → trim_start s ≡ s
unfolding trim_start
trim_start_of_Solid [] h = refl
trim_start_of_Solid (c ∷ s) h = rw h.0

pub trim_of_Solid : (s : Text) → Solid s → trim s ≡ s
unfolding trim
trim_of_Solid s h = rw (trim_start_of_Solid s h) (trim_end_of_Solid s h)

pub Digits-Solid : (s : Text) → Digits s → Solid s
Digits-Solid [] d = tt
Digits-Solid (c ∷ s) d = (digit_clean c d.0, Digits-Solid s d.1)
