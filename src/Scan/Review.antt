-- ===== src/Scan/Review.antt =====
-- What was read of the card, to be checked and filed: CardReview and its form schema, of
-- frontend-next/src/routes/_authed/contacts/scan.tsx. `is_email` is zod's test of an address.
pub mod Defaults
pub mod Company
use tiny_crm.Prelude.{
  ℕ, Bool, true, false, ◌&&◌, ◌||◌, not, Option, none, some, List, [], ◌∷◌, ◌++◌, Text, codes,
  truthy, given, trim, filter, drop, join, includes, starts_with, if◌then◌else◌, is_some,
}
use tiny_crm.Forms.{
  Check, check, failing, when_valid, or_null, or_empty, if_given, is_letters, upper_text,
}

-- `CompanyChoice`; `'none'` is `no_company`.
pub data CompanyChoice : Type 0 where
  existing new no_company : CompanyChoice

abbrev pub is_existing : CompanyChoice → Bool
is_existing existing = true
is_existing new = false
is_existing no_company = false

abbrev pub is_new : CompanyChoice → Bool
is_new existing = false
is_new new = true
is_new no_company = false

-- `BusinessCardScan['contact']`, and the organization and the match beside it.
pub record CardContact : Type 0 where
  pub name : Option Text
  pub job_title : Option Text
  pub email : Option Text
  pub email_secondary : Option Text
  pub phone : Option Text
  pub phone_secondary : Option Text
  pub website : Option Text
  pub street : Option Text
  pub postal_code : Option Text
  pub city : Option Text
  pub country : Option Text
  pub notes : Option Text

pub record CardOrganization : Type 0 where
  pub name : Text
  pub domain : Option Text
  pub email : Option Text
  pub phone : Option Text
  pub address : Option Text

pub record BusinessCardScan : Type 0 where
  pub contact : CardContact
  pub organization : Option CardOrganization
  pub match_id : Option Text

-- `FormInput`, and `FormOutput`, which differs in being trimmed.
pub record Values : Type 0 where
  pub name : Text
  pub job_title : Text
  pub email : Text
  pub email_secondary : Text
  pub phone : Text
  pub phone_secondary : Text
  pub website : Text
  pub street : Text
  pub postal_code : Text
  pub city : Text
  pub country : Text
  pub notes : Text
  pub company : CompanyChoice
  pub organization_id : Option Text
  pub org_name : Text
  pub org_domain : Text
  pub org_email : Text
  pub org_phone : Text
  pub org_address : Text

-- The contact and the organization of a `BusinessCardImport`.
pub record ImportContact : Type 0 where
  pub name : Text
  pub job_title : Option Text
  pub organization_id : Option Text
  pub email : Option Text
  pub email_secondary : Option Text
  pub phone : Option Text
  pub phone_secondary : Option Text
  pub website : Option Text
  pub street : Option Text
  pub postal_code : Option Text
  pub city : Option Text
  pub country : Option Text
  pub notes : Option Text
  pub tags : List Text

pub record ImportOrganization : Type 0 where
  pub name : Text
  pub domain : Option Text
  pub email : Option Text
  pub phone : Option Text
  pub address : Option Text

pub record BusinessCardImport : Type 0 where
  pub contact : ImportContact
  pub organization : Option ImportOrganization

-- The transforms of `formSchema`.
unfoldable pub trimmed : Values → Values
trimmed v = record v {
  name = trim v.name;
  job_title = trim v.job_title;
  email = trim v.email;
  email_secondary = trim v.email_secondary;
  phone = trim v.phone;
  phone_secondary = trim v.phone_secondary;
  website = trim v.website;
  street = trim v.street;
  postal_code = trim v.postal_code;
  city = trim v.city;
  country = trim v.country;
  notes = trim v.notes;
  org_name = trim v.org_name;
  org_domain = trim v.org_domain;
  org_email = trim v.org_email;
  org_phone = trim v.org_phone;
  org_address = trim v.org_address;
}

-- `toBody`.
abbrev pub contact_body : Values → ImportContact
contact_body v = record {
  name = v.name;
  job_title = or_null v.job_title;
  organization_id = if is_existing v.company then v.organization_id else none;
  email = or_null v.email;
  email_secondary = or_null v.email_secondary;
  phone = or_null v.phone;
  phone_secondary = or_null v.phone_secondary;
  website = or_null v.website;
  street = or_null v.street;
  postal_code = or_null v.postal_code;
  city = or_null v.city;
  country = if_given upper_text v.country;
  notes = or_null v.notes;
  tags = [];
}

abbrev pub organization_body : Values → ImportOrganization
organization_body v = record {
  name = v.org_name;
  domain = or_null v.org_domain;
  email = or_null v.org_email;
  phone = or_null v.org_phone;
  address = or_null v.org_address;
}

unfoldable pub to_body : Values → BusinessCardImport
to_body v = record {
  contact = contact_body v;
  organization = if is_new v.company then some (organization_body v) else none;
}

-- A text that may be missing, as a condition.
abbrev pub is_given : Option Text → Bool
is_given none = false
is_given (some t) = truthy t

module _ (is_email : Text → Bool) where
  abbrev pub email_or_empty : Text → Bool
  email_or_empty v = not (truthy v) || is_email v

  -- The checks of `formSchema`, on the trimmed values.
  unfoldable pub checks : Values → List Check
  unfolding is_letters
  checks v =
      check (truthy v.name) (codes "name") (codes "Name is required.")
      ∷ check (email_or_empty v.email) (codes "email") (codes "Enter a valid email address.")
      ∷ check (email_or_empty v.email_secondary) (codes "email_secondary")
          (codes "Enter a valid email address.")
      ∷ check (not (truthy v.country) || is_letters 2 v.country) (codes "country")
          (codes "Two letters, like AT or DE.")
      ∷ check (not (is_existing v.company) || is_given v.organization_id) (codes "organization_id")
          (codes "Choose the company.")
      ∷ check (not (is_new v.company) || truthy v.org_name) (codes "org_name")
          (codes "Name is required.")
      ∷ check (not (is_new v.company) || email_or_empty v.org_email) (codes "org_email")
          (codes "Enter a valid email address.")
      ∷ []

  -- `handleSubmit((values) => mutation.mutate(toBody(values)))`.
  unfoldable pub submit : Values → Option BusinessCardImport
  unfolding trimmed checks to_body failing
  submit v = when_valid (failing (checks (trimmed v))) (to_body (trimmed v))
