-- ===== src/Forms/Contact.antt =====
-- The form of a contact: frontend-next/src/components/ContactForm.tsx. `''` among the choices is
-- `none`, and the ids of the choices are the constructors. `is_email` is zod's test of an address.
pub mod Unchanged
use tiny_crm.Prelude.{
  ℕ, Bool, true, false, ◌&&◌, ◌||◌, not, Option, none, some, List, [], ◌∷◌, ◌++◌, Text, codes,
  truthy, trim, length, join, if◌then◌else◌, is_some,
}
use tiny_crm.Safe.{lower_text}
use tiny_crm.Format.{split_tags}
use tiny_crm.Forms.{
  Check, check, failing, when_valid, or_null, or_empty, if_given, is_letters, is_money,
  comma_to_point, upper_text,
}

pub data Lifecycle : Type 0 where
  lead prospect customer former : Lifecycle

pub data Relation : Type 0 where
  customer partner subcontracting_target contracting_authority : Relation

pub data Source : Type 0 where
  referral inbound outbound event job_board tender_portal other : Source

-- `works_with_freelancers` in the form: '', 'yes' or 'no'.
pub data Answer : Type 0 where
  unasked works_with does_not : Answer

-- `FormInput`, and `FormOutput`, which differs in being trimmed.
pub record Values : Type 0 where
  pub name : Text
  pub job_title : Text
  pub organization_id : Option Text
  pub email : Text
  pub email_secondary : Text
  pub phone : Text
  pub phone_secondary : Text
  pub website : Text
  pub street : Text
  pub postal_code : Text
  pub city : Text
  pub country : Text
  pub lifecycle_status : Option Lifecycle
  pub relation_type : Option Relation
  pub source : Option Source
  pub works_with_freelancers : Answer
  pub known_day_rate : Text
  pub rate_currency : Text
  pub preferred_language : Text
  pub birthday : Text
  pub tags : Text
  pub notes : Text

-- `ContactCreate`: also what the form reads of a `ContactRead`.
pub record ContactCreate : Type 0 where
  pub name : Text
  pub job_title : Option Text
  pub organization_id : Option Text
  pub email : Option Text
  pub email_secondary : Option Text
  pub phone : Option Text
  pub phone_secondary : Option Text
  pub website : Option Text
  pub street : Option Text
  pub postal_code : Option Text
  pub city : Option Text
  pub country : Option Text
  pub lifecycle_status : Option Lifecycle
  pub relation_type : Option Relation
  pub source : Option Source
  pub works_with_freelancers : Option Bool
  pub known_day_rate : Option Text
  pub rate_currency : Option Text
  pub preferred_language : Option Text
  pub birthday : Option Text
  pub tags : List Text
  pub notes : Option Text

-- The transforms of `formSchema`.
unfoldable pub trimmed : Values → Values
trimmed v = record v {
  name = trim v.name;
  job_title = trim v.job_title;
  email = trim v.email;
  email_secondary = trim v.email_secondary;
  phone = trim v.phone;
  phone_secondary = trim v.phone_secondary;
  website = trim v.website;
  street = trim v.street;
  postal_code = trim v.postal_code;
  city = trim v.city;
  country = trim v.country;
  known_day_rate = trim v.known_day_rate;
  rate_currency = trim v.rate_currency;
  preferred_language = trim v.preferred_language;
  tags = trim v.tags;
  notes = trim v.notes;
}

-- `pattern`: '' passes too.
abbrev pub pattern_or_empty : (Text → Bool) → Text → Bool
pattern_or_empty test v = not (truthy v) || test v

abbrev pub answer_value : Answer → Option Bool
answer_value unasked = none
answer_value works_with = some true
answer_value does_not = some false

abbrev pub answer_of : Option Bool → Answer
answer_of none = unasked
answer_of (some true) = works_with
answer_of (some false) = does_not

-- `toBody`.
unfoldable pub to_body : Values → ContactCreate
unfolding comma_to_point split_tags
to_body v = record {
  name = v.name;
  job_title = or_null v.job_title;
  organization_id = v.organization_id;
  email = or_null v.email;
  email_secondary = or_null v.email_secondary;
  phone = or_null v.phone;
  phone_secondary = or_null v.phone_secondary;
  website = or_null v.website;
  street = or_null v.street;
  postal_code = or_null v.postal_code;
  city = or_null v.city;
  country = if_given upper_text v.country;
  lifecycle_status = v.lifecycle_status;
  relation_type = v.relation_type;
  source = v.source;
  works_with_freelancers = answer_value v.works_with_freelancers;
  known_day_rate = if_given comma_to_point v.known_day_rate;
  rate_currency = if truthy v.known_day_rate then some (upper_text v.rate_currency) else none;
  preferred_language = if_given lower_text v.preferred_language;
  birthday = or_null v.birthday;
  tags = split_tags v.tags;
  notes = or_null v.notes;
}

abbrev pub or_euro : Option Text → Text
or_euro none = codes "EUR"
or_euro (some t) = t

-- `toDefaults`: of a stored contact, or of a new one, preset to an organization.
unfoldable pub to_defaults : Option ContactCreate → Option Text → Values
unfolding join
to_defaults none organization_id = record {
  name = [];
  job_title = [];
  organization_id = organization_id;
  email = [];
  email_secondary = [];
  phone = [];
  phone_secondary = [];
  website = [];
  street = [];
  postal_code = [];
  city = [];
  country = [];
  lifecycle_status = none;
  relation_type = none;
  source = none;
  works_with_freelancers = unasked;
  known_day_rate = [];
  rate_currency = codes "EUR";
  preferred_language = [];
  birthday = [];
  tags = [];
  notes = [];
}
to_defaults (some c) organization_id = record {
  name = c.name;
  job_title = or_empty c.job_title;
  organization_id = c.organization_id;
  email = or_empty c.email;
  email_secondary = or_empty c.email_secondary;
  phone = or_empty c.phone;
  phone_secondary = or_empty c.phone_secondary;
  website = or_empty c.website;
  street = or_empty c.street;
  postal_code = or_empty c.postal_code;
  city = or_empty c.city;
  country = or_empty c.country;
  lifecycle_status = c.lifecycle_status;
  relation_type = c.relation_type;
  source = c.source;
  works_with_freelancers = answer_of c.works_with_freelancers;
  known_day_rate = or_empty c.known_day_rate;
  rate_currency = or_euro c.rate_currency;
  preferred_language = or_empty c.preferred_language;
  birthday = or_empty c.birthday;
  tags = join (codes ", ") c.tags;
  notes = or_empty c.notes;
}

module _ (is_email : Text → Bool) where
  -- The checks of `formSchema`, on the trimmed values.
  unfoldable pub checks : Values → List Check
  unfolding is_letters is_money
  checks v =
      check (truthy v.name) (codes "name") (codes "Name is required.")
      ∷ check (pattern_or_empty is_email v.email) (codes "email")
          (codes "Enter a valid email address.")
      ∷ check (pattern_or_empty is_email v.email_secondary) (codes "email_secondary")
          (codes "Enter a valid email address.")
      ∷ check (pattern_or_empty (is_letters 2) v.country) (codes "country")
          (codes "Two letters, like AT or DE.")
      ∷ check (pattern_or_empty is_money v.known_day_rate) (codes "known_day_rate")
          (codes "An amount like 850 or 850.50.")
      ∷ check (pattern_or_empty (is_letters 2) v.preferred_language) (codes "preferred_language")
          (codes "Two letters, like de or en.")
      ∷ check (not (truthy v.known_day_rate) || is_letters 3 v.rate_currency)
          (codes "rate_currency") (codes "Three letters, like EUR.")
      ∷ []

  -- `handleSubmit((values) => onSubmit(toBody(values)))`.
  unfoldable pub submit : Values → Option ContactCreate
  unfolding trimmed checks to_body failing
  submit v = when_valid (failing (checks (trimmed v))) (to_body (trimmed v))
