-- ===== src/Forms/Organization.antt =====
-- The form of an organization: frontend-next/src/components/OrganizationForm.tsx.
pub mod Domain
mod Tests
use tiny_crm.Prelude.{
  Bool, true, false, ◌&&◌, ◌||◌, not, Option, none, some, List, [], ◌∷◌, Text, codes, truthy, trim,
  any, ◌==◌, if◌then◌else◌,
}
use tiny_crm.Forms.{Check, check, failing, when_valid, or_null, or_empty, after_http}
use tiny_crm.Forms.Watch.{is_line_break}

pub record Values : Type 0 where
  pub name : Text
  pub domain : Text
  pub industry : Text
  pub email : Text
  pub phone : Text
  pub address : Text
  pub notes : Text

-- `OrganizationCreate`: also what the form reads of an `OrganizationRead`.
pub record OrganizationCreate : Type 0 where
  pub name : Text
  pub domain : Option Text
  pub industry : Option Text
  pub email : Option Text
  pub phone : Option Text
  pub address : Option Text
  pub notes : Option Text

abbrev pub or_whole : Text → Option Text → Text
or_whole v none = v
or_whole v (some t) = t

-- `v.replace(/\/.*$/, '')`: from the first `/` with no line break behind it.
unfoldable pub without_path : Text → Text
without_path [] = []
without_path (c ∷ s) =
    let rest = without_path s in if c == b'/' && not (any is_line_break s) then [] else c ∷ rest

unfoldable pub bare_domain : Text → Text
unfolding after_http without_path
bare_domain v = without_path (or_whole v (after_http v))

-- The transforms of `formSchema`.
unfoldable pub trimmed : Values → Values
unfolding bare_domain
trimmed v = record {
  name = trim v.name;
  domain = bare_domain (trim v.domain);
  industry = trim v.industry;
  email = trim v.email;
  phone = trim v.phone;
  address = trim v.address;
  notes = trim v.notes;
}

-- `toBody`.
unfoldable pub to_body : Values → OrganizationCreate
to_body v = record {
  name = v.name;
  domain = or_null v.domain;
  industry = or_null v.industry;
  email = or_null v.email;
  phone = or_null v.phone;
  address = or_null v.address;
  notes = or_null v.notes;
}

-- `toDefaults`.
unfoldable pub to_defaults : Option OrganizationCreate → Values
to_defaults none = record {
  name = [];
  domain = [];
  industry = [];
  email = [];
  phone = [];
  address = [];
  notes = [];
}
to_defaults (some o) = record {
  name = o.name;
  domain = or_empty o.domain;
  industry = or_empty o.industry;
  email = or_empty o.email;
  phone = or_empty o.phone;
  address = or_empty o.address;
  notes = or_empty o.notes;
}

-- What zod takes for an address of e-mail is a parameter.
module _ (is_email : Text → Bool) where
  -- The checks of `formSchema`, on the transformed values.
  unfoldable pub checks : Values → List Check
  checks v =
      check (truthy v.name) (codes "name") (codes "Name is required.")
      ∷ check (not (truthy v.email) || is_email v.email) (codes "email")
          (codes "Enter a valid email address.")
      ∷ []

  unfoldable pub submit : Values → Option OrganizationCreate
  unfolding trimmed checks to_body failing
  submit v = when_valid (failing (checks (trimmed v))) (to_body (trimmed v))
