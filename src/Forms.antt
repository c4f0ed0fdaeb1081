-- ===== src/Forms.antt =====
-- What the forms share: the fields of zod and of react-hook-form as frontend-next/src/components uses
-- them. A field is a text, and '' is how an input says "nothing". `z.string().trim()` trims before
-- the checks; a check that fails is an issue at a field, and a form with an issue is not submitted.
pub mod Fields
pub mod Amounts
pub mod Deal
pub mod Contact
pub mod Task
pub mod Watch
pub mod Organization
pub mod Project
pub mod Interaction
pub mod Document
pub mod Links
mod Tests
use tiny_crm.Prelude.{
  drop, starts_with, ℕ, ◌+◌, ◌-◌, Bool, true, false, ◌&&◌, ◌||◌, not, Option, none, some, List, [],
  ◌∷◌, ◌++◌, map, Text, codes, truthy, length, all, is_digit, value_from, ltb, leb, ◌==◌,
  if◌then◌else◌,
}
use tiny_crm.Money.{take_digits, drop_digits}
use tiny_crm.Safe.{lower_text, is_letter}

pub record Issue : Type 0 where
  pub path : Text
  pub message : Text

-- `min(1, …)` and `refine`: an issue where the test fails.
pub record Check : Type 0 where
  pub passes : Bool
  pub issue : Issue

abbrev pub check : Bool → Text → Text → Check
check passes path message = record {
  passes = passes;
  issue = record { path = path; message = message };
}

-- What a schema reports: the issue of each check that fails, in order.
unfoldable pub failing : List Check → List Issue
failing [] = []
failing (c ∷ cs) = let rest = failing cs in if c.passes then rest else c.issue ∷ rest

-- `handleSubmit((values) => onSubmit(toBody(values)))`: what is handed on, if anything is.
abbrev pub when_valid {ℓ} : {A : Type ℓ} → List Issue → A → Option A
when_valid [] body = some body
when_valid (i ∷ is) body = none

-- `v || null`, `x ?? ''`, and `v ? f(v) : null`.
abbrev pub or_null : Text → Option Text
or_null [] = none
or_null (c ∷ s) = some (c ∷ s)

abbrev pub or_empty : Option Text → Text
or_empty none = []
or_empty (some t) = t

abbrev pub if_given : (Text → Text) → Text → Option Text
if_given f [] = none
if_given f (c ∷ s) = some (f (c ∷ s))

-- `/^[A-Za-z]{n}$/`.
unfoldable pub is_letters : ℕ → Text → Bool
is_letters n v = length v == n && all is_letter v

-- `/^\d+$/`.
unfoldable pub is_number : Text → Bool
is_number v = truthy v && all is_digit v

-- `([.,]\d{1,2})?$`.
abbrev pub is_fraction : Text → Bool
is_fraction [] = true
is_fraction (c ∷ s) =
    (c == b'.' || c == b',') && all is_digit s && leb 1 (length s) && leb (length s) 2

-- `/^\d{1,12}([.,]\d{1,2})?$/`: no shorter run of digits than the whole one can be followed so.
unfoldable pub is_money : Text → Bool
unfolding take_digits drop_digits
is_money v =
    leb 1 (length (take_digits v)) && leb (length (take_digits v)) 12 && is_fraction (drop_digits v)

-- `v.replace(',', '.')`: the first one.
unfoldable pub comma_to_point : Text → Text
comma_to_point [] = []
comma_to_point (c ∷ s) = let rest = comma_to_point s in if c == b',' then b'.' ∷ s else c ∷ rest

-- `toUpperCase` and `toLowerCase` of ASCII letters, which is all that the forms apply them to.
abbrev pub upper : ℕ → ℕ
upper c = if leb b'a' c && leb c b'z' then c - 32 else c

abbrev pub upper_text : Text → Text
upper_text [] = []
upper_text (c ∷ s) = upper c ∷ upper_text s

-- What follows `/^https?:\/\//i` at the head of a text, if that stands there.
unfoldable pub after_http : Text → Option Text
after_http v =
    if starts_with (lower_text v) (codes "http://")
    then some (drop 7 v)
    else if starts_with (lower_text v) (codes "https://")
    then some (drop 8 v)
    else none
