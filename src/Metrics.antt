-- ===== src/Metrics.antt =====
-- The Numbers page: frontend-next/src/metrics.ts. A `Map` is its entries in the order of insertion.
-- `before a b` stands for `a.localeCompare(b) <= 0`, which follows the reader's locale.
-- `null` and `undefined` are `none`.
pub mod Cents
pub mod Totals
pub mod Sums
pub mod Bars
mod Tests
use tiny_crm.Prelude.{
  sort, ℕ, zero, suc, ◌+◌, ◌*◌, ◌/◌, ◌%◌, Bool, true, false, ◌&&◌, not, Option, none, some, List,
  [], ◌∷◌, ◌++◌, map, Text, codes, text_eq, trim, split, pad_end, pad_start, take, all, is_digit,
  nat_text, value_from, length, filter, find, get_last?, ltb, leb, ◌==◌, if◌then◌else◌,
}
use tiny_crm.Deals.{Stage}
use tiny_crm.Money.{format_money}

pub record StageMoney : Type 0 where
  pub currency : Text
  pub count : ℕ
  pub value : Text
  pub open_ended : ℕ
  pub stage : Stage

pub record MoneyByCurrency : Type 0 where
  pub currency : Text
  pub count : ℕ
  pub value : Text
  pub open_ended : ℕ

-- `moneyPair`.
pub record MoneyPair : Type 0 where
  pub amount : Text
  pub open_ended : Option Text

unfoldable pub money_pair : MoneyByCurrency → MoneyPair
money_pair m = record {
  amount = format_money m.value m.currency;
  open_ended =
      if ltb 0 m.open_ended then some (nat_text m.open_ended ++ codes " open-ended") else none;
}

pub record CurrencyBlock : Type 0 where
  pub currency : Text
  pub rows : List StageMoney
  pub count : ℕ
  pub open_ended : ℕ

abbrev pub new_block : Text → CurrencyBlock
new_block currency = record { currency = currency; rows = []; count = 0; open_ended = 0 }

abbrev pub push_row : StageMoney → CurrencyBlock → CurrencyBlock
push_row row b = record {
  currency = b.currency;
  rows = b.rows ++ row ∷ [];
  count = b.count + row.count;
  open_ended = b.open_ended + row.open_ended;
}

-- One round of the loop: the block of the row's currency, or a new one, takes the row.
unfoldable pub add_row : StageMoney → List CurrencyBlock → List CurrencyBlock
add_row row [] = push_row row (new_block row.currency) ∷ []
add_row row (b ∷ bs) =
    if text_eq b.currency row.currency then push_row row b ∷ bs else b ∷ add_row row bs

unfoldable pub add_rows : List StageMoney → List CurrencyBlock → List CurrencyBlock
unfolding add_row
add_rows [] bs = bs
add_rows (row ∷ rows) bs = add_rows rows (add_row row bs)

-- `BigInt(text)`: decimal digits, none of them for 0. The API's amounts have no sign and are
-- decimal; for all else `none` stands, where `BigInt` throws or reads another notation.
unfoldable pub big_int : Text → Option ℕ
big_int s = if all is_digit (trim s) then some (value_from 0 (trim s)) else none

abbrev pub add_cents : Option ℕ → Option ℕ → Option ℕ
add_cents none b = none
add_cents (some a) none = none
add_cents (some a) (some b) = some (a * 100 + b)

-- `[whole, fraction = '']`, the fraction filled up and cut to two places.
abbrev pub two_places : Text → Text
two_places fraction = take 2 (pad_end fraction 2 b'0')

abbrev pub cents_of_parts : List Text → Option ℕ
cents_of_parts [] = none
cents_of_parts (whole ∷ []) = add_cents (big_int whole) (big_int (two_places []))
cents_of_parts (whole ∷ fraction ∷ more) = add_cents (big_int whole) (big_int (two_places fraction))

unfoldable pub exact_cents : Text → Option ℕ
exact_cents value = cents_of_parts (split b'.' (trim value))

unfoldable pub from_cents : ℕ → Text
from_cents cents =
    nat_text (cents / 100) ++ (codes "." ++ pad_start (nat_text (cents % 100)) 2 b'0')

pub record Total : Type 0 where
  pub currency : Text
  pub cents : ℕ
  pub count : ℕ
  pub open_ended : ℕ

-- One round of the loop of `totalsByCurrency`, for a row of that many cents.
abbrev pub plus_row : ℕ → StageMoney → Total → Total
plus_row cents row t = record {
  currency = t.currency;
  cents = t.cents + cents;
  count = t.count + row.count;
  open_ended = t.open_ended + row.open_ended;
}

abbrev pub no_total : Text → Total
no_total currency = record { currency = currency; cents = 0; count = 0; open_ended = 0 }

unfoldable pub add_total : ℕ → StageMoney → List Total → List Total
add_total cents row [] = plus_row cents row (no_total row.currency) ∷ []
add_total cents row (t ∷ ts) =
    if text_eq t.currency row.currency
    then plus_row cents row t ∷ ts
    else t ∷ add_total cents row ts

-- An amount that `BigInt` cannot read throws out of the loop.
abbrev pub or_throw : Option ℕ → (ℕ → Option (List Total)) → Option (List Total)
or_throw none k = none
or_throw (some cents) k = k cents

unfoldable pub tally : List StageMoney → List Total → Option (List Total)
tally [] ts = some ts
tally (row ∷ rows) ts =
    or_throw (exact_cents row.value) (λ cents. tally rows (add_total cents row ts))

abbrev pub shown_total : Total → MoneyByCurrency
shown_total t = record {
  currency = t.currency;
  count = t.count;
  value = from_cents t.cents;
  open_ended = t.open_ended;
}

module _ (before : Text → Text → Bool) where
  abbrev pub block_before : CurrencyBlock → CurrencyBlock → Bool
  block_before a b = before a.currency b.currency

  abbrev pub total_before : Total → Total → Bool
  total_before a b = before a.currency b.currency

  -- `byCurrency`.
  unfoldable pub by_currency : List StageMoney → List CurrencyBlock
  unfolding add_rows sort
  by_currency rows = sort block_before (add_rows rows [])

  abbrev pub shown_totals : Option (List Total) → Option (List MoneyByCurrency)
  shown_totals none = none
  shown_totals (some ts) = some (map shown_total (sort total_before ts))

  -- `totalsByCurrency`.
  unfoldable pub totals_by_currency : List StageMoney → Option (List MoneyByCurrency)
  unfolding tally add_total sort
  totals_by_currency rows = shown_totals (tally rows [])
