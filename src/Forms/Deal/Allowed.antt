-- ===== src/Forms/Deal/Allowed.antt =====
-- What the form of a deal sends (frontend-next/src/components/DealForm.tsx) keeps to the rules of the
-- API.
use tiny_crm.Prelude.{
  ℕ, ◌≡◌, ◌∙◌, ◌≤◌, refl, sym, subst, Bool, true, false, ◌&&◌, ◌||◌, not, Option, none, some, [],
  ◌∷◌, Text, truthy, length, all, is_some, arith, leb→le, if◌then◌else◌,
}
use tiny_crm.Deals.{lost, stage_eq, ValueType, fixed, rate_based, retainer}
use tiny_crm.Forms.{is_letter, or_null, is_letters}
use tiny_crm.Forms.Fields.{AllPass, when_valid-some, is_capital, all-is_capital, length-upper_text}
use tiny_crm.Forms.Amounts.{Decimal, comma_to_point-IsDecimal}
use tiny_crm.Forms.Deal.{
  Values, DealCreate, trimmed, is_amount, is_percentage, is_fixed, checks, to_decimal,
  number_or_null, to_body, submit,
}

abbrev pub AtMost : ℕ → Option ℕ → Type 0
AtMost k none = Unit
AtMost k (some n) = n ≤ k

-- The pricing rules: a contract sum is a fixed deal's alone, a rate and a volume are another deal's,
-- and each stands with its unit.
abbrev pub IsPriced : DealCreate → Bool → Type 0
IsPriced b true =
    (b.rate ≡ none) × (b.rate_unit ≡ none) × (b.estimated_volume ≡ none) × (b.volume_unit ≡ none)
IsPriced b false =
    (b.fixed_value ≡ none)
    × (is_some b.rate ≡ is_some b.rate_unit)
    × (is_some b.estimated_volume ≡ is_some b.volume_unit)

pub record IsAllowed (b : DealCreate) : Type 0 where
  pub titled : truthy b.title ≡ true
  pub priced : IsPriced b (is_fixed b.value_type)
  pub fixed_value : Decimal b.fixed_value
  pub rate : Decimal b.rate
  pub volume : Decimal b.estimated_volume
  pub currency : (length b.currency ≡ 3) × (all is_capital b.currency ≡ true)
  pub reason : (is_some b.lost_reason && not (stage_eq b.stage lost)) ≡ false
  pub probability : AtMost 100 b.probability

to_decimal-Decimal : (v : Text) → is_amount v ≡ true → Decimal (to_decimal v)
to_decimal-Decimal [] h = tt
to_decimal-Decimal (c ∷ v) h = comma_to_point-IsDecimal (c ∷ v) h

Decimal-if :
    (b : Bool) (v : Text)
    → is_amount v ≡ true
    → Decimal (if b then to_decimal v else none) × Decimal (if b then none else to_decimal v)
Decimal-if true v h = (to_decimal-Decimal v h, tt)
Decimal-if false v h = (tt, to_decimal-Decimal v h)

percentage-AtMost : (v : Text) → is_percentage v ≡ true → AtMost 100 (number_or_null v)
percentage-AtMost [] h = tt
percentage-AtMost (c ∷ v) h = leb→le _ 100 (ground (arith, h))

is_some-to_decimal : (v : Text) → is_some (to_decimal v) ≡ truthy v
is_some-to_decimal [] = refl
is_some-to_decimal (c ∷ v) = refl

module _ {ℓ} {A : Type ℓ} where
  unit_kept :
      (v : Text) (unit : Option A)
      → (not (truthy v) || is_some unit) ≡ true
      → is_some (to_decimal v) ≡ is_some (if truthy v then unit else none)
  unit_kept [] unit h = refl
  unit_kept (c ∷ v) unit h = sym h

reason_of_lost : (b : Bool) (v : Text) → (is_some (if b then or_null v else none) && not b) ≡ false
reason_of_lost true [] = refl
reason_of_lost true (c ∷ v) = refl
reason_of_lost false v = refl

IsPriced-to_body :
    (v : Values)
    → (is_fixed v.value_type || not (truthy v.rate) || is_some v.rate_unit) ≡ true
    → (is_fixed v.value_type || not (truthy v.estimated_volume) || is_some v.volume_unit) ≡ true
    → IsPriced (to_body v) (is_fixed v.value_type)
unfolding to_body
IsPriced-to_body v r e = by_type v.value_type r e
  where
    by_type :
        (t : ValueType)
        → (is_fixed t || not (truthy v.rate) || is_some v.rate_unit) ≡ true
        → (is_fixed t || not (truthy v.estimated_volume) || is_some v.volume_unit) ≡ true
        → IsPriced (to_body (record v { value_type = t })) (is_fixed t)
    by_type fixed a b = (refl, refl, refl, refl)
    by_type rate_based a b =
        (refl, unit_kept v.rate v.rate_unit a, unit_kept v.estimated_volume v.volume_unit b)
    by_type retainer a b =
        (refl, unit_kept v.rate v.rate_unit a, unit_kept v.estimated_volume v.volume_unit b)

letters_parts : (v : Text) → is_letters 3 v ≡ true → (length v ≡ 3) × (all is_letter v ≡ true)
unfolding is_letters
letters_parts v h = ground (arith, h)

to_body-IsAllowed : (v : Values) → AllPass (checks v) → IsAllowed (to_body v)
unfolding checks to_body
to_body-IsAllowed v
      (title, (sum, (rate, (volume, (currency, (percentage, (rate_unit, (volume_unit, _)))))))) =
    let (three, letters) = letters_parts v.currency currency in
    record {
      titled = title;
      priced = IsPriced-to_body v rate_unit volume_unit;
      fixed_value = (Decimal-if (is_fixed v.value_type) v.fixed_value sum).0;
      rate = (Decimal-if (is_fixed v.value_type) v.rate rate).1;
      volume = (Decimal-if (is_fixed v.value_type) v.estimated_volume volume).1;
      currency = (length-upper_text v.currency ∙ three, all-is_capital v.currency letters);
      reason = reason_of_lost (stage_eq v.stage lost) v.lost_reason;
      probability = percentage-AtMost v.probability percentage;
    }

-- Whatever is typed and chosen: what the form hands on has a title, amounts with a decimal point, a
-- currency of three capitals and a probability of at most 100; a fixed deal has no rate and no volume,
-- another deal has no contract sum and a unit exactly for what it states of rate and volume; and a
-- reason goes only with a lost deal.
pub submit-IsAllowed : (v : Values) (b : DealCreate) → submit v ≡ some b → IsAllowed b
unfolding submit
submit-IsAllowed v b h =
    let (valid, same) = when_valid-some (checks (trimmed v)) (to_body (trimmed v)) b h in
    subst IsAllowed same (to_body-IsAllowed (trimmed v) valid)
