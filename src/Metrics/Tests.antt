-- ===== src/Metrics/Tests.antt =====
-- Runs of the totals of frontend-next/src/metrics.ts.
use tiny_crm.Prelude.{
  split, trim, is_space, nat_text, value_from, ℕ, ◌≡◌, refl, true, Bool, some, List, [], ◌∷◌, Text,
  codes,
}
use tiny_crm.Deals.{lead}
use tiny_crm.Metrics.{
  big_int, StageMoney, MoneyByCurrency, totals_by_currency, from_cents, exact_cents,
}
use tiny_crm.Metrics.Bars.{largest, cents}
use tiny_crm.Metrics.Sums.{IsExact, totals_by_currency_lem}

abbrev row_of : Text → ℕ → Text → StageMoney
row_of c n v = record { currency = c; count = n; value = v; open_ended = 1; stage = lead }

abbrev three_rows : List StageMoney
three_rows =
    row_of (codes "EUR") 2 (codes "100.50")
    ∷ row_of (codes "CHF") 1 (codes "7")
    ∷ row_of (codes "EUR") 1 (codes "0.5")
    ∷ []

abbrev as_listed : Text → Text → Bool
as_listed a b = true

abbrev three_totals : List MoneyByCurrency
three_totals =
    record { currency = codes "EUR"; count = 3; value = codes "101.00"; open_ended = 2 }
    ∷ record { currency = codes "CHF"; count = 1; value = codes "7.00"; open_ended = 1 }
    ∷ []

totals_of_three : totals_by_currency as_listed three_rows ≡ some three_totals
unfolding totals_by_currency exact_cents split trim is_space big_int from_cents nat_text value_from
totals_of_three = refl

totals_by_currency_lem_example : IsExact (codes "EUR") three_rows three_totals
totals_by_currency_lem_example =
    totals_by_currency_lem as_listed three_rows three_totals (codes "EUR") totals_of_three

longest : largest three_rows ≡ codes "100.50"
unfolding largest cents split trim is_space big_int value_from
longest = refl
