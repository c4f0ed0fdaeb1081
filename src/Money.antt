-- ===== src/Money.antt =====
-- Money as the lists show it: `formatMoney` of frontend-next/src/deals.ts. An amount is the decimal
-- text that the API sent; nothing here makes a number of it.
pub mod Groups
pub mod Value
mod Tests
use tiny_crm.Prelude.{
  ℕ, ◌%◌, Bool, true, false, ◌&&◌, Option, none, some, List, [], ◌∷◌, ◌++◌, Text, codes, trim,
  is_digit, length, all, ltb, ◌==◌, if◌then◌else◌, pad_end, truthy,
}

-- What `/^(-?)(\d+)(?:\.(\d*))?$/` captures; `fraction` is '' where the group took no part.
pub record Amount : Type 0 where
  pub sign : Text
  pub whole : Text
  pub fraction : Text

-- The leading digits, and what follows them.
unfoldable pub take_digits : Text → Text
take_digits [] = []
take_digits (c ∷ s) = let rest = take_digits s in if is_digit c then c ∷ rest else []

unfoldable pub drop_digits : Text → Text
drop_digits [] = []
drop_digits (c ∷ s) = let rest = drop_digits s in if is_digit c then rest else c ∷ s

-- `(?:\.(\d*))?$`: nothing, or a point and digits up to the end.
unfoldable pub match_fraction : Text → Option Text
match_fraction [] = some []
match_fraction (c ∷ s) = if c == b'.' && all is_digit s then some s else none

abbrev pub with_fraction : Text → Text → Option Text → Option Amount
with_fraction sign whole none = none
with_fraction sign whole (some f) = some (record { sign = sign; whole = whole; fraction = f })

-- `(\d+)` and the rest: greedy, and a digit can follow only within the group.
unfoldable pub match_whole : Text → Text → Option Amount
unfolding take_digits drop_digits match_fraction
match_whole sign s =
    if truthy (take_digits s)
    then with_fraction sign (take_digits s) (match_fraction (drop_digits s))
    else none

unfoldable pub match_amount : Text → Option Amount
unfolding match_whole
match_amount [] = match_whole [] []
match_amount (c ∷ s) = if c == b'-' then match_whole (codes "-") s else match_whole [] (c ∷ s)

-- `whole.replace(/\B(?=(\d{3})+(?!\d))/g, ',')` on digits: a comma between two digits where the
-- digits to the right make whole groups of three.
unfoldable pub group : Text → Text
group [] = []
group (c ∷ s) = c ∷ ((if truthy s && length s % 3 == 0 then codes "," else []) ++ group s)

-- The text for a match.
unfoldable pub show_amount : Amount → Text
unfolding group
show_amount a = a.sign ++ (group a.whole ++ (codes "." ++ pad_end a.fraction 2 b'0'))

unfoldable pub format_money : Text → Text → Text
unfolding match_amount show_amount
format_money amount currency = elim (match_amount (trim amount)) [
  | none ↦ amount ++ (codes " " ++ currency)
  | some a ↦ show_amount a ++ (codes " " ++ currency)
]
