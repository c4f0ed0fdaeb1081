-- ===== src/Money/Tests.antt =====
-- Runs of `formatMoney` of frontend-next/src/deals.ts, and its theorems at an input.
use tiny_crm.Prelude.{is_space, ◌≡◌, refl, some, [], codes, length, split, pad_end, ◌++◌, trim}
use tiny_crm.Money.{Amount, group, match_amount, show_amount, format_money}
use tiny_crm.Money.Groups.{Thousands}
use tiny_crm.Money.Value.{strip, format_money_lem}

millions : format_money (codes "1234567.5") (codes "EUR") ≡ codes "1,234,567.50 EUR"
unfolding format_money trim is_space
millions = refl

negative : format_money (codes "-1000") (codes "EUR") ≡ codes "-1,000.00 EUR"
unfolding format_money trim is_space
negative = refl

precise : format_money (codes "12.345") (codes "EUR") ≡ codes "12.345 EUR"
unfolding format_money trim is_space
precise = refl

spaced : format_money (codes "  42.00 ") (codes "EUR") ≡ codes "42.00 EUR"
unfolding format_money trim is_space
spaced = refl

no_amount : format_money (codes "n/a") (codes "EUR") ≡ codes "n/a EUR"
unfolding format_money trim is_space
no_amount = refl

abbrev sample : Amount
sample = record { sign = []; whole = codes "1234567"; fraction = codes "5" }

sample_matched : match_amount (trim (codes "1234567.5")) ≡ some sample
unfolding match_amount trim is_space
sample_matched = refl

format_money_lem_example :
    (format_money (codes "1234567.5") (codes "EUR")
      ≡ show_amount sample ++ (codes " " ++ codes "EUR"))
    × (match_amount (strip (show_amount sample))
        ≡ some (record sample { fraction = pad_end (codes "5") 2 b'0' }))
    × Thousands (length (codes "1234567")) (split b',' (group (codes "1234567")))
format_money_lem_example = format_money_lem (codes "1234567.5") (codes "EUR") sample sample_matched
