-- ===== src/Format/LocalTime.antt =====
-- Moments and the days of the browser's zone: `localDay`, `endOfLocalDay`, `toLocalDateTime` and
-- `fromLocalDateTime` of frontend-next/src/format.ts. What a `Date` makes of a text, and which ISO text it
-- has for a full year and four more local numbers, are parameters. Years before 0 are left out.
pub mod RoundTrip
mod Tests
use tiny_crm.Prelude.{
  leb, ℕ, ◌+◌, Bool, true, false, Option, none, some, List, [], ◌∷◌, ◌++◌, map, Text, codes, split,
  all, is_digit, nat_text, value_from, pad_start, if◌then◌else◌,
}

-- `getFullYear`, `getMonth`, `getDate`, `getHours` and `getMinutes`.
pub record LocalFields : Type 0 where
  pub year : ℕ
  pub month : ℕ
  pub date : ℕ
  pub hours : ℕ
  pub minutes : ℕ

-- `Number` of a text of digits, as the fields of dates hold them; '' is 0.
unfoldable pub number : Text → Option ℕ
number s = if all is_digit s then some (value_from 0 s) else none

abbrev pub padded : ℕ → Text
padded n = pad_start (nat_text n) 2 b'0'

abbrev pub day_text : LocalFields → Text
day_text f = nat_text f.year ++ b'-' ∷ (padded (f.month + 1) ++ b'-' ∷ padded f.date)

abbrev pub time_text : LocalFields → Text
time_text f = padded f.hours ++ b':' ∷ padded f.minutes

module _ (fields_of : Text → LocalFields) where
  -- `localDay`.
  unfoldable pub local_day : Text → Text
  local_day iso = day_text (fields_of iso)

  -- `toLocalDateTime`.
  unfoldable pub to_local_date_time : Text → Text
  unfolding local_day
  to_local_date_time iso = local_day iso ++ b'T' ∷ time_text (fields_of iso)

-- `[y, m, d]` and `[h, min]` of what is split; a part that is missing is NaN.
abbrev pub three : List (Option ℕ) → Option (ℕ × ℕ × ℕ)
three (some y ∷ some m ∷ some d ∷ rest) = some (y, m, d)
three parts = none

abbrev pub two : List (Option ℕ) → Option (ℕ × ℕ)
two (some h ∷ some min ∷ rest) = some (h, min)
two parts = none

-- The full year that `new Date(y, ...)` takes `y` for.
abbrev pub full_year : ℕ → ℕ
full_year y = if leb 100 y then y else 1900 + y

-- `new Date(y, m - 1, d, h, min).toISOString()`: `iso_of (full_year y) m d h min`, with the month from 1.
module _ (iso_of : ℕ → ℕ → ℕ → ℕ → ℕ → Text) where
  -- `endOfLocalDay`; an invalid date throws.
  abbrev pub end_of : Option (ℕ × ℕ × ℕ) → Option Text
  end_of none = none
  end_of (some (y, m, d)) = some (iso_of (full_year y) m d 23 59)

  unfoldable pub end_of_local_day : Text → Option Text
  unfolding number split
  end_of_local_day iso_date = end_of (three (map number (split b'-' iso_date)))

  -- `fromLocalDateTime`; without a `T` the time is undefined, and its `split` throws.
  abbrev pub moment : Option (ℕ × ℕ × ℕ) → Option (ℕ × ℕ) → Option Text
  moment none time = none
  moment (some (y, m, d)) none = none
  moment (some (y, m, d)) (some (h, min)) = some (iso_of (full_year y) m d h min)

  abbrev pub of_parts : List Text → Option Text
  unfolding number split
  of_parts [] = none
  of_parts (day ∷ []) = none
  of_parts (day ∷ time ∷ rest) =
      moment (three (map number (split b'-' day))) (two (map number (split b':' time)))

  unfoldable pub from_local_date_time : Text → Option Text
  unfolding split
  from_local_date_time local = of_parts (split b'T' local)
