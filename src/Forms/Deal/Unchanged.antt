-- ===== src/Forms/Deal/Unchanged.antt =====
-- A deal that is opened in its form and saved as it is (frontend-next/src/components/DealForm.tsx).
use tiny_crm.Prelude.{
  ℕ, ◌≡◌, ◌≤◌, ◌∙◌, refl, sym, ap, Bool, true, false, ◌&&◌, ◌||◌, not, Option, none, some, [], ◌∷◌,
  Text, truthy, trim, length, all, is_digit, is_some, value_from, nat_text, arith, if◌then◌else◌,
  false-ne-true, nat_text-Digits, value_from-nat_text, nat_text-filled, length-nat_text-le, Digits,
  Digits-Solid, trim_of_Solid,
}
use tiny_crm.Deals.{lost, stage_eq, DealRead}
use tiny_crm.Forms.{when_valid, failing, or_null, or_empty, is_number}
use tiny_crm.Forms.Fields.{
  AllPass, failing_of_AllPass, IsClean, or_null-or_empty_untrimmed, trim-or_empty, trim_nil,
  is_capital, upper_text_of_capitals, capitals-Solid, capital_letters,
}
use tiny_crm.Forms.Amounts.{Decimal, amount_kept, IsDecimal-truthy}
use tiny_crm.Forms.Deal.{
  DealCreate, DealPreset, trimmed, is_percentage, is_fixed, checks, to_decimal, number_or_null,
  to_body, submit, to_defaults, number_text,
}
use tiny_crm.Forms.Deal.Allowed.{IsPriced, AtMost}

-- The fields of a stored deal that its form edits.
unfoldable pub fields_of : DealRead → DealCreate
fields_of d = record {
  title = d.title;
  value_type = d.value_type;
  fixed_value = d.fixed_value;
  rate = d.rate;
  rate_unit = d.rate_unit;
  estimated_volume = d.estimated_volume;
  volume_unit = d.volume_unit;
  currency = d.currency;
  stage = d.stage;
  lost_reason = d.lost_reason;
  expected_close_date = d.expected_close_date;
  probability = d.probability;
  contact_id = d.contact_id;
  organization_id = d.organization_id;
  notes = d.notes;
}

-- What a deal must be for its form to keep it; the API stores others too: priced as `IsAllowed` says of a
-- body, with amounts that the form takes and a currency of three capitals, a reason only with a
-- lost deal, a probability of at most 100, and no text that is '' or has spaces around it.
pub record IsStored (d : DealRead) : Type 0 where
  pub title : IsClean (some d.title)
  pub priced : IsPriced (fields_of d) (is_fixed d.value_type)
  pub fixed_value : Decimal d.fixed_value
  pub rate : Decimal d.rate
  pub volume : Decimal d.estimated_volume
  pub currency : (length d.currency ≡ 3) × (all is_capital d.currency ≡ true)
  pub reason : (is_some d.lost_reason && not (stage_eq d.stage lost)) ≡ false
  pub reason_text : IsClean d.lost_reason
  pub close_date : IsClean d.expected_close_date
  pub probability : AtMost 100 d.probability
  pub notes : IsClean d.notes

Digits-all : (s : Text) → Digits s → all is_digit s ≡ true
Digits-all [] d = refl
Digits-all (c ∷ s) d = rw (d.0, Digits-all s d.1)

filled_cases :
    (s : Text)
    → 1 ≤ length s
    → length s ≤ 3
    → Digits s
    → (n : ℕ) → value_from 0 s ≡ n
    → n ≤ 100
    → (is_percentage s ≡ true) × (number_or_null s ≡ some n)
unfolding is_number
filled_cases [] h l d n e k = absurd (omega arith)
filled_cases (c ∷ s) h l d n e k = let digits = Digits-all (c ∷ s) d in (ground arith, ap some e)

probability_kept :
    (p : Option ℕ)
    → AtMost 100 p
    → (trim (number_text p) ≡ number_text p)
      × (is_percentage (number_text p) ≡ true)
      × (number_or_null (number_text p) ≡ p)
probability_kept none h = (trim_nil, refl, refl)
probability_kept (some n) h =
    let (percent, number) =
      filled_cases (nat_text n) (nat_text-filled n) (length-nat_text-le n h) (nat_text-Digits n) n
        (value_from-nat_text n) h in
    (trim_of_Solid (nat_text n) (Digits-Solid (nat_text n) (nat_text-Digits n)), percent, number)

module _ {A : Type 0} where
  unit_kept :
      (o : Option Text) (unit : Option A)
      → Decimal o
      → is_some o ≡ is_some unit
      → ((if truthy (or_empty o) then unit else none) ≡ unit)
        × ((not (truthy (or_empty o)) || is_some unit) ≡ true)
  unit_kept none none h e = (refl, refl)
  unit_kept none (some u) h e = absurd (false-ne-true e)
  unit_kept (some t) unit h e = rw (IsDecimal-truthy t h) (refl, sym e)

reason_kept :
    (b : Bool) (o : Option Text)
    → IsClean o
    → (is_some o && not b) ≡ false
    → (if b then or_null (or_empty o) else none) ≡ o
reason_kept true o c h = or_null-or_empty_untrimmed o c
reason_kept false none c h = refl
reason_kept false (some t) c h = absurd (false-ne-true (sym h))

module _ (d : DealRead) (h : IsStored d) where
  -- What the pricing fields of the body and the checks on them come to.
  pricing_kept :
      (b : Bool)
      → IsPriced (fields_of d) b
      → ((if b then to_decimal (or_empty d.fixed_value) else none) ≡ d.fixed_value)
        × ((if b then none else to_decimal (or_empty d.rate)) ≡ d.rate)
        × ((if not b && truthy (or_empty d.rate) then d.rate_unit else none) ≡ d.rate_unit)
        × ((if b then none else to_decimal (or_empty d.estimated_volume)) ≡ d.estimated_volume)
        × ((if not b && truthy (or_empty d.estimated_volume) then d.volume_unit else none)
            ≡ d.volume_unit)
        × ((b || not (truthy (or_empty d.rate)) || is_some d.rate_unit) ≡ true)
        × ((b || not (truthy (or_empty d.estimated_volume)) || is_some d.volume_unit) ≡ true)
  unfolding fields_of
  pricing_kept true p =
      ((amount_kept d.fixed_value h.fixed_value).2, sym p.0, sym p.1, sym p.2, sym p.3, refl, refl)
  pricing_kept false p =
      let rate = unit_kept d.rate d.rate_unit h.rate p.1 in
      let volume = unit_kept d.estimated_volume d.volume_unit h.volume p.2 in
      (
        sym p.0,
        (amount_kept d.rate h.rate).2,
        rate.0,
        (amount_kept d.estimated_volume h.volume).2,
        volume.0,
        rate.1,
        volume.1,
      )

  trimmed-to_defaults :
      (preset : DealPreset) → trimmed (to_defaults (some d) preset) ≡ to_defaults (some d) preset
  unfolding trimmed to_defaults
  trimmed-to_defaults preset = rw h.title.1 (
      rw (amount_kept d.fixed_value h.fixed_value).0 (
        rw (amount_kept d.rate h.rate).0 (
          rw (amount_kept d.estimated_volume h.volume).0 (
            rw (trim_of_Solid d.currency (capitals-Solid d.currency h.currency.1)) (
              rw (trim-or_empty d.lost_reason h.reason_text) (
                rw (probability_kept d.probability h.probability).0
                  (rw (trim-or_empty d.notes h.notes))))))))

  AllPass-to_defaults : (preset : DealPreset) → AllPass (checks (to_defaults (some d) preset))
  unfolding checks to_defaults
  AllPass-to_defaults preset =
      let (_, _, _, _, _, rate_unit, volume_unit) = pricing_kept (is_fixed d.value_type) h.priced in
      (
        h.title.0,
        (
          (amount_kept d.fixed_value h.fixed_value).1,
          (
            (amount_kept d.rate h.rate).1,
            (
              (amount_kept d.estimated_volume h.volume).1,
              (
                capital_letters d.currency h.currency,
                ((probability_kept d.probability h.probability).1, (rate_unit, (volume_unit, tt))),
              ),
            ),
          ),
        ),
      )

  to_body-to_defaults : (preset : DealPreset) → to_body (to_defaults (some d) preset) ≡ fields_of d
  unfolding to_body to_defaults fields_of
  to_body-to_defaults preset =
      let (sum, rate, rate_unit, volume, volume_unit, _, _) =
        pricing_kept (is_fixed d.value_type) h.priced in
      rw sum (
        rw rate (
          rw rate_unit (
            rw volume (
              rw volume_unit (
                rw (upper_text_of_capitals d.currency h.currency.1) (
                  rw (reason_kept (stage_eq d.stage lost) d.lost_reason h.reason_text h.reason) (
                    rw (or_null-or_empty_untrimmed d.expected_close_date h.close_date) (
                      rw (probability_kept d.probability h.probability).2
                        (rw (or_null-or_empty_untrimmed d.notes h.notes))))))))))

  -- If a stored deal is priced by its type (a fixed value alone, or a rate and a volume, each just with its
  -- unit), its amounts are decimals as the form takes them, its currency is three capitals, a reason
  -- stands only with a lost deal, its probability is at most 100, its title is not empty, and none of
  -- title, reason, closing date and notes that there is is empty or has spaces around it: then the
  -- form that is opened with it and saved as it stands sends exactly what was stored.
  pub submit-to_defaults :
      (preset : DealPreset) → submit (to_defaults (some d) preset) ≡ some (fields_of d)
  unfolding submit
  submit-to_defaults preset =
      let v = to_defaults (some d) preset in
      ap (λ w. when_valid (failing (checks w)) (to_body w)) (trimmed-to_defaults preset)
      ∙ ap (λ l. when_valid l (to_body v))
          (failing_of_AllPass (checks v) (AllPass-to_defaults preset))
      ∙ ap some (to_body-to_defaults preset)
