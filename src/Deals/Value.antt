-- ===== src/Deals/Value.antt =====
-- What a deal is worth: `dealValue` and `valueSummary` of frontend-next/src/deals.ts.
use mathlib.Core.Option
use tiny_crm.Prelude.{
  ◌≡◌, refl, ◌↔◌, Bool, true, false, Option, none, some, List, [], ◌∷◌, ◌++◌, Text, codes, text_eq,
  given, trim, find,
}
use tiny_crm.Money.{format_money}
use tiny_crm.Deals.{DealRead, TimeUnit, hour, day, week, month}

pub record UnitOption : Type 0 where
  pub value : TimeUnit
  pub label : Text
  pub plural : Text

abbrev pub unit_value : TimeUnit → Text
unit_value hour = codes "hour"
unit_value day = codes "day"
unit_value week = codes "week"
unit_value month = codes "month"

abbrev pub unit_option : TimeUnit → Text → Text → UnitOption
unit_option value label plural = record { value = value; label = label; plural = plural }

-- `unitOptions`.
abbrev pub unit_options : List UnitOption
unit_options =
    unit_option hour (codes "hour") (codes "hours")
    ∷ unit_option day (codes "day") (codes "days")
    ∷ unit_option week (codes "week") (codes "weeks")
    ∷ unit_option month (codes "month") (codes "months")
    ∷ []

-- `unitOptions.find((u) => u.value === unit)`.
unfoldable pub find_unit : Option TimeUnit → Option UnitOption
find_unit none = none
find_unit (some unit) = find (λ u. text_eq (unit_value u.value) (unit_value unit)) unit_options

pub record DealValue : Type 0 where
  pub headline : Option Text
  pub detail : Option Text

-- `total` and `rate`.
abbrev pub total_of : Option Text → Text → Option Text
total_of none currency = none
total_of (some v) currency = some (format_money v currency)

abbrev pub rate_of : Option Text → Option UnitOption → Text → Option Text
rate_of (some r) (some u) currency = some (format_money r currency ++ (codes "/" ++ u.label))
rate_of none u currency = none
rate_of (some r) none currency = none

abbrev pub plural_or_empty : Option UnitOption → Text
plural_or_empty none = []
plural_or_empty (some u) = u.plural

-- The ladder of `detail`, on what it tests: the total, the rate, the volume and the two units.
unfoldable pub detail_of :
    Bool
    → Option Text
    → Option Text
    → Option Text
    → Option UnitOption
    → Option UnitOption
    → Option Text
detail_of true total rate volume unit volume_unit = some (codes "Open-ended — no total to forecast")
detail_of false (some t) (some r) (some v) unit volume_unit =
    some (trim (r ++ (codes " × " ++ (v ++ (codes " " ++ plural_or_empty volume_unit)))))
detail_of false none rate (some v) (some u) (some w) = some (
    codes "Estimated in "
    ++ (w.plural ++ (codes " at a " ++ (u.label ++ codes " rate — no total derived"))))
detail_of false total rate volume unit volume_unit = none

abbrev pub or_else : Option Text → Option Text → Option Text
or_else none b = b
or_else (some a) b = some a

-- `dealValue`.
unfoldable pub deal_value : DealRead → DealValue
unfolding find_unit detail_of
deal_value d =
    let unit = find_unit d.rate_unit in
    let total = total_of (given d.expected_value) d.currency in
    let rate = rate_of (given d.rate) unit d.currency in
    record {
      headline = or_else total rate;
      detail =
          detail_of d.is_open_ended total rate (given d.estimated_volume) unit
            (find_unit d.volume_unit);
    }

abbrev pub summary_of : Bool → Option Text → Option Text
summary_of is_open_ended none = none
summary_of true (some h) = some (h ++ codes " · open-ended")
summary_of false (some h) = some h

-- `valueSummary`.
unfoldable pub value_summary : DealRead → Option Text
unfolding deal_value
value_summary d = summary_of d.is_open_ended (deal_value d).headline

-- Every unit is offered, under its own value.
find_unit_lem : (u : TimeUnit) → (o : UnitOption) × (find_unit (some u) ≡ some o) × (o.value ≡ u)
unfolding find_unit
find_unit_lem hour = (unit_option hour (codes "hour") (codes "hours"), refl, refl)
find_unit_lem day = (unit_option day (codes "day") (codes "days"), refl, refl)
find_unit_lem week = (unit_option week (codes "week") (codes "weeks"), refl, refl)
find_unit_lem month = (unit_option month (codes "month") (codes "months"), refl, refl)

-- A total, or a rate with its unit.
abbrev pub priced : Option Text → Option Text → Option TimeUnit → Bool
priced (some v) r u = true
priced none (some r) (some u) = true
priced none (some r) none = false
priced none none u = false

abbrev pub is_priced : DealRead → Bool
is_priced d = priced (given d.expected_value) (given d.rate) d.rate_unit

summary-none_iff :
    (b : Bool) (v r : Option Text) (u : Option TimeUnit) (c : Text)
    → (summary_of b (or_else (total_of v c) (rate_of r (find_unit u) c)) ≡ none)
      ↔ (priced v r u ≡ false)
unfolding find_unit
summary-none_iff true (some v) r u c = ((λ e. cc), (λ e. cc))
summary-none_iff false (some v) r u c = ((λ e. cc), (λ e. cc))
summary-none_iff b none none u c = ((λ e. refl), (λ e. refl))
summary-none_iff b none (some r) none c = ((λ e. refl), (λ e. refl))
summary-none_iff b none (some r) (some u) c =
    let (o, found, _) = find_unit_lem u in rw found (summary_some b _)
  where
    summary_some : (b : Bool) (h : Text) → (summary_of b (some h) ≡ none) ↔ (true ≡ false)
    summary_some true h = ((λ e. cc), (λ e. cc))
    summary_some false h = ((λ e. cc), (λ e. cc))

-- A deal reads as unpriced exactly if it has neither a total nor a rate with its unit.
pub value_summary-none_iff : (d : DealRead) → (value_summary d ≡ none) ↔ (is_priced d ≡ false)
unfolding value_summary
value_summary-none_iff d =
    summary-none_iff d.is_open_ended (given d.expected_value) (given d.rate) d.rate_unit d.currency

-- An open-ended deal says so in its detail, and in its summary where it is priced at all.
pub deal_value-open_ended :
    (d : DealRead)
    → d.is_open_ended ≡ true
    → ((deal_value d).detail ≡ some (codes "Open-ended — no total to forecast"))
      × (value_summary d ≡ Option.map (λ h. h ++ codes " · open-ended") (deal_value d).headline)
unfolding value_summary
deal_value-open_ended d e = rw e (refl, marked (deal_value d).headline)
  where
    marked : (h : Option Text) → summary_of true h ≡ Option.map (λ h. h ++ codes " · open-ended") h
    marked none = refl
    marked (some h) = refl
