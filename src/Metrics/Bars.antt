-- ===== src/Metrics/Bars.antt =====
-- The longest bar of a block, and counts in words: `largest`, `dealCount`, `dealsText` and `daysText` of
-- frontend-next/src/metrics.ts. The amounts are those of the API: digits, a point and more digits.
use tiny_crm.Prelude.{
  ℕ, ◌+◌, ◌≤◌, ◌≡◌, refl, Bool, true, false, Option, none, some, List, [], ◌∷◌, ◌++◌, Text, codes,
  All, false-ne-true, nat_text, split, trim, is_space, value_from, ltb, ◌==◌, arith, Bool-cases,
  inl, inr, if◌then◌else◌,
}
use tiny_crm.Metrics.{StageMoney, MoneyByCurrency, cents_of_parts, big_int}

-- `cents`: `Number` of digits is what `BigInt` is of them.
unfoldable pub cents : Text → Option ℕ
unfolding split
cents value = cents_of_parts (split b'.' value)

-- `cents(a) > cents(b)`; an amount that is no number is neither.
abbrev pub is_more : Option ℕ → Option ℕ → Bool
is_more none b = false
is_more (some a) none = false
is_more (some a) (some b) = ltb b a

-- `largest`: a round of the reduction, and all of them.
abbrev pub larger : Text → StageMoney → Text
unfolding cents
larger most r = if is_more (cents r.value) (cents most) then r.value else most

unfoldable pub largest_from : List StageMoney → Text → Text
unfolding larger
largest_from [] most = most
largest_from (r ∷ rows) most = largest_from rows (larger most r)

unfoldable pub largest : List StageMoney → Text
unfolding largest_from
largest rows = largest_from rows (codes "0.00")

-- `dealCount`, `dealsText` and `daysText`.
unfoldable pub deal_count : List MoneyByCurrency → ℕ
deal_count [] = 0
deal_count (r ∷ rows) = r.count + deal_count rows

unfoldable pub deals_text : ℕ → Text
unfolding nat_text
deals_text n = if n == 1 then codes "1 deal" else nat_text n ++ codes " deals"

unfoldable pub days_text : ℕ → Text
unfolding nat_text
days_text days = if days == 1 then codes "1 day" else nat_text days ++ codes " days"

-- An amount of cents that no row exceeds, and no less than `least`.
pub record IsTop (rows : List StageMoney) (least : ℕ) (most : Text) : Type 0 where
  pub top : ℕ
  pub worth : cents most ≡ some top
  pub at_least : least ≤ top
  pub above : All (λ r. is_more (cents r.value) (some top) ≡ false) rows

still_below :
    (o : Option ℕ) (n top : ℕ) → is_more o (some n) ≡ false → n ≤ top → is_more o (some top) ≡ false
still_below none n top h g = refl
still_below (some a) n top h g = ground (arith, h, g)

now_worth : (o : Option ℕ) (n : ℕ) → is_more o (some n) ≡ true → (m : ℕ) × (o ≡ some m) × (n ≤ m)
now_worth none n h = absurd (false-ne-true h)
now_worth (some a) n h = (a, refl, ground (arith, h))

not_above : (o : Option ℕ) (m top : ℕ) → o ≡ some m → m ≤ top → is_more o (some top) ≡ false
not_above o m top e h = rw e (ground (arith, h))

largest_from-IsTop :
    (rows : List StageMoney) (most : Text) (n : ℕ)
    → cents most ≡ some n
    → IsTop rows n (largest_from rows most)
unfolding largest_from larger
largest_from-IsTop [] most n e = record { top = n; worth = e; at_least = omega arith; above = tt }
largest_from-IsTop (r ∷ rows) most n e = elim (Bool-cases (is_more (cents r.value) (some n))) [
  | inl f ↦
      (let (m, same, more) = now_worth (cents r.value) n f in
        let rest = largest_from-IsTop rows r.value m same in
        rw (e, f)
          (record {
            top = rest.top;
            worth = rest.worth;
            at_least = omega (arith, more, rest.at_least);
            above = (not_above (cents r.value) m rest.top same rest.at_least, rest.above);
          }))
  | inr f ↦
      (let rest = largest_from-IsTop rows most n e in
        rw (e, f)
          (record {
            top = rest.top;
            worth = rest.worth;
            at_least = rest.at_least;
            above = (still_below (cents r.value) n rest.top f rest.at_least, rest.above);
          }))
]

zero_cents : cents (codes "0.00") ≡ some 0
unfolding cents big_int trim is_space value_from split
zero_cents = refl

-- The amount that the bars of a block are drawn against is a number of cents, and no amount of the
-- block is more.
pub largest-IsTop : (rows : List StageMoney) → IsTop rows 0 (largest rows)
unfolding largest
largest-IsTop rows = largest_from-IsTop rows (codes "0.00") 0 zero_cents
