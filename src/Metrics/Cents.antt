-- ===== src/Metrics/Cents.antt =====
-- Cents as whole numbers: `exactCents` and `fromCents` of frontend-next/src/metrics.ts.
use tiny_crm.Prelude.{
  ℕ, ◌/◌, ◌%◌, ◌≡◌, ◌≢◌, refl, ap, true, false, some, [], ◌∷◌, ◌++◌, arith, Text, length, all,
  All-append, is_digit, is_space, pad_start, nat_text, value_from, Digits, Digits-Solid,
  trim_of_Solid, nat_text-Digits, value_from-nat_text, pad_start-nat_text, split-append,
  split_of_Lacks, Lacks, Solid,
}
use tiny_crm.Metrics.{big_int, two_places, exact_cents, from_cents}

Digits-all : (s : Text) → Digits s → all is_digit s ≡ true
Digits-all [] d = refl
Digits-all (c ∷ s) d = rw (d.0, Digits-all s d.1)

Digits-Lacks : (s : Text) → Digits s → Lacks b'.' s
Digits-Lacks [] d = tt
Digits-Lacks (c ∷ s) d = (point_free c d.0, Digits-Lacks s d.1)
  where
    point_free : (c : ℕ) → is_digit c ≡ true → c ≢ b'.'
    point_free c h = ground arith

big_int-Digits : (s : Text) → Digits s → big_int s ≡ some (value_from 0 s)
unfolding big_int
big_int-Digits s d = rw (trim_of_Solid s (Digits-Solid s d)) (rw (Digits-all s d))

-- Two digits are their own two places.
two_places_of_two : (s : Text) → length s ≡ 2 → two_places s ≡ s
two_places_of_two [] h = absurd (omega arith)
two_places_of_two (a ∷ []) h = absurd (omega arith)
two_places_of_two (a ∷ b ∷ []) h = refl
two_places_of_two (a ∷ b ∷ c ∷ s) h = absurd (omega arith)

-- The printed cents read back as the number of cents.
pub exact_cents-from_cents : (n : ℕ) → exact_cents (from_cents n) ≡ some n
unfolding exact_cents from_cents
exact_cents-from_cents n =
    let (two, same, digits) = pad_start-nat_text (n % 100) (omega arith) in
    let whole = nat_text-Digits (n / 100) in
    let low : Text = pad_start (nat_text (n % 100)) 2 b'0' in
    let solid : Solid (nat_text (n / 100) ++ (b'.' ∷ low)) =
      All-append (λ c. is_space c ≡ false) (nat_text (n / 100)) (b'.' ∷ low) (Digits-Solid _ whole)
        (unfold is_space in refl, Digits-Solid low digits) in
    rw (trim_of_Solid (nat_text (n / 100) ++ (b'.' ∷ low)) solid) (
      rw (split-append b'.' (nat_text (n / 100)) low (Digits-Lacks _ whole)) (
        rw (split_of_Lacks b'.' low (Digits-Lacks low digits)) (
          rw (two_places_of_two low two) (
            rw (big_int-Digits (nat_text (n / 100)) whole) (
              rw (big_int-Digits low digits)
                (rw (value_from-nat_text (n / 100), same) (ap some (omega arith))))))))
