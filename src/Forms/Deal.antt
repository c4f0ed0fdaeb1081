-- ===== src/Forms/Deal.antt =====
-- The form of a deal: frontend-next/src/components/DealForm.tsx. `''` among the units is `none`.
pub mod Allowed
pub mod Unchanged
use tiny_crm.Prelude.{
  ℕ, Bool, true, false, ◌&&◌, ◌||◌, not, Option, none, some, List, [], ◌∷◌, ◌++◌, Text, codes,
  truthy, trim, length, text_or, value_from, nat_text, leb, if◌then◌else◌, is_some,
}
use tiny_crm.Deals.{
  Stage, lead, lost, stage_eq, stage_value, ValueType, fixed, rate_based, retainer, TimeUnit, hour,
  day, week, month, DealRead,
}
use tiny_crm.Money.{format_money}
use tiny_crm.Forms.{
  Check, check, failing, when_valid, or_null, or_empty, if_given, is_letters, is_number, is_money,
  comma_to_point, upper_text,
}

-- `FormInput`, and `FormOutput`, which differs in being trimmed.
pub record Values : Type 0 where
  pub title : Text
  pub value_type : ValueType
  pub fixed_value : Text
  pub rate : Text
  pub rate_unit : Option TimeUnit
  pub estimated_volume : Text
  pub volume_unit : Option TimeUnit
  pub currency : Text
  pub stage : Stage
  pub lost_reason : Text
  pub expected_close_date : Text
  pub probability : Text
  pub contact_id : Option Text
  pub organization_id : Option Text
  pub notes : Text

-- `DealCreate`.
pub record DealCreate : Type 0 where
  pub title : Text
  pub value_type : ValueType
  pub fixed_value : Option Text
  pub rate : Option Text
  pub rate_unit : Option TimeUnit
  pub estimated_volume : Option Text
  pub volume_unit : Option TimeUnit
  pub currency : Text
  pub stage : Stage
  pub lost_reason : Option Text
  pub expected_close_date : Option Text
  pub probability : Option ℕ
  pub contact_id : Option Text
  pub organization_id : Option Text
  pub notes : Option Text

-- What the form is opened with on a record's page: the ids of `DealPreset`.
pub record DealPreset : Type 0 where
  pub contact : Option Text
  pub organization : Option Text

-- The transforms of `formSchema`.
unfoldable pub trimmed : Values → Values
trimmed v = record v {
  title = trim v.title;
  fixed_value = trim v.fixed_value;
  rate = trim v.rate;
  estimated_volume = trim v.estimated_volume;
  currency = trim v.currency;
  lost_reason = trim v.lost_reason;
  probability = trim v.probability;
  notes = trim v.notes;
}

-- `money`: no amount, or one.
abbrev pub is_amount : Text → Bool
is_amount v = not (truthy v) || is_money v

abbrev pub is_percentage : Text → Bool
is_percentage v = not (truthy v) || (is_number v && leb (length v) 3 && leb (value_from 0 v) 100)

abbrev pub is_fixed : ValueType → Bool
is_fixed fixed = true
is_fixed rate_based = false
is_fixed retainer = false

-- The checks of `formSchema`, on the trimmed values.
unfoldable pub checks : Values → List Check
unfolding is_letters is_number is_money
checks v =
    check (truthy v.title) (codes "title") (codes "Title is required.")
    ∷ check (is_amount v.fixed_value) (codes "fixed_value")
        (codes "An amount like 12000 or 850.50.")
    ∷ check (is_amount v.rate) (codes "rate") (codes "An amount like 12000 or 850.50.")
    ∷ check (is_amount v.estimated_volume) (codes "estimated_volume")
        (codes "An amount like 12000 or 850.50.")
    ∷ check (is_letters 3 v.currency) (codes "currency") (codes "Three letters, like EUR.")
    ∷ check (is_percentage v.probability) (codes "probability")
        (codes "A whole percentage from 0 to 100.")
    ∷ check (is_fixed v.value_type || not (truthy v.rate) || is_some v.rate_unit)
        (codes "rate_unit") (codes "Per what?")
    ∷ check (is_fixed v.value_type || not (truthy v.estimated_volume) || is_some v.volume_unit)
        (codes "volume_unit") (codes "In what?")
    ∷ []

-- `toDecimal`.
abbrev pub to_decimal : Text → Option Text
to_decimal v = if_given comma_to_point v

abbrev pub number_or_null : Text → Option ℕ
number_or_null [] = none
number_or_null (c ∷ s) = some (value_from 0 (c ∷ s))

-- `toBody`.
unfoldable pub to_body : Values → DealCreate
unfolding comma_to_point
to_body v = record {
  title = v.title;
  value_type = v.value_type;
  fixed_value = if is_fixed v.value_type then to_decimal v.fixed_value else none;
  rate = if is_fixed v.value_type then none else to_decimal v.rate;
  rate_unit = if not (is_fixed v.value_type) && truthy v.rate then v.rate_unit else none;
  estimated_volume = if is_fixed v.value_type then none else to_decimal v.estimated_volume;
  volume_unit =
      if not (is_fixed v.value_type) && truthy v.estimated_volume then v.volume_unit else none;
  currency = upper_text v.currency;
  stage = v.stage;
  lost_reason = if stage_eq v.stage lost then or_null v.lost_reason else none;
  expected_close_date = or_null v.expected_close_date;
  probability = number_or_null v.probability;
  contact_id = v.contact_id;
  organization_id = v.organization_id;
  notes = or_null v.notes;
}

abbrev pub number_text : Option ℕ → Text
number_text none = []
number_text (some n) = nat_text n

-- `toDefaults`.
unfoldable pub to_defaults : Option DealRead → DealPreset → Values
to_defaults none preset = record {
  title = [];
  value_type = fixed;
  fixed_value = [];
  rate = [];
  rate_unit = none;
  estimated_volume = [];
  volume_unit = none;
  currency = codes "EUR";
  stage = lead;
  lost_reason = [];
  expected_close_date = [];
  probability = [];
  contact_id = preset.contact;
  organization_id = preset.organization;
  notes = [];
}
to_defaults (some d) preset = record {
  title = d.title;
  value_type = d.value_type;
  fixed_value = or_empty d.fixed_value;
  rate = or_empty d.rate;
  rate_unit = d.rate_unit;
  estimated_volume = or_empty d.estimated_volume;
  volume_unit = d.volume_unit;
  currency = d.currency;
  stage = d.stage;
  lost_reason = or_empty d.lost_reason;
  expected_close_date = or_empty d.expected_close_date;
  probability = number_text d.probability;
  contact_id = d.contact_id;
  organization_id = d.organization_id;
  notes = or_empty d.notes;
}

-- `handleSubmit((values) => onSubmit(toBody(values)))`.
unfoldable pub submit : Values → Option DealCreate
unfolding trimmed checks to_body failing
submit v = when_valid (failing (checks (trimmed v))) (to_body (trimmed v))

abbrev pub usual_unit : ValueType → TimeUnit
usual_unit retainer = month
usual_unit _ = day

abbrev pub or_unit : Option TimeUnit → TimeUnit → Option TimeUnit
or_unit none unit = some unit
or_unit (some u) unit = some u

-- "Priced as": a rate needs a unit; it starts from the usual one, and so does the volume.
unfoldable pub pick_value_type : ValueType → Values → Values
pick_value_type t v =
    if not (is_fixed t) && not (is_some v.rate_unit)
    then record v {
      value_type = t;
      rate_unit = some (usual_unit t);
      volume_unit = or_unit v.volume_unit (usual_unit t);
    }
    else record v { value_type = t }
