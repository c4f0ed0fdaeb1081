-- ===== src/Forms/Tests.antt =====
-- Runs of the forms of frontend-next/src/components, and their theorems at an input.
use tiny_crm.Prelude.{
  value_from, is_space, arith, ◌≡◌, refl, Bool, false, none, some, [], ◌∷◌, Text, codes, trim, any,
  ◌==◌,
}
use tiny_crm.Due.{text_ltb}
use tiny_crm.Deals.{DealRead, rate_based, day, lost}
use tiny_crm.Forms.Deal.{Values, submit, to_body, to_defaults, trimmed}
use tiny_crm.Forms.Deal.Allowed.{IsAllowed, submit-IsAllowed}
use tiny_crm.Forms.Deal.Unchanged.{IsStored, fields_of, submit-to_defaults}
use tiny_crm.Forms.Contact.{ContactCreate}
use tiny_crm.Forms.Contact.Unchanged.{contact_unchanged}
use tiny_crm.Forms.Task.{TaskFields, weekly, high}
use tiny_crm.Forms.Task.Repeats.{IsSeries, submit-IsSeries}
use tiny_crm.Forms.Amounts.{IsDecimal}
use tiny_crm.Forms.{is_money}
use tiny_crm.Forms.Contact
use tiny_crm.Forms.Contact.Unchanged
use tiny_crm.Forms.Task

abbrev rated_deal : DealRead
rated_deal = record {
  id = codes "deal-7";
  title = codes "Data platform";
  value_type = rate_based;
  fixed_value = none;
  rate = some (codes "850.50");
  rate_unit = some day;
  estimated_volume = some (codes "20");
  volume_unit = some day;
  expected_value = some (codes "17010.00");
  is_open_ended = false;
  currency = codes "EUR";
  stage = lost;
  expected_close_date = none;
  probability = some 0;
  lost_reason = some (codes "Too late");
  closed_at = none;
  stage_changed_at = codes "2026-09-01T08:00:00Z";
  notes = none;
  contact_id = some (codes "c1");
  organization_id = none;
  contact_name = none;
  organization_name = none;
  is_open = false;
  is_won = false;
  is_active = false;
  has_next_step = false;
  created_at = codes "2026-08-01T08:00:00Z";
  updated_at = codes "2026-09-01T08:00:00Z";
  archived_at = none;
  version = 3;
}

rate-IsDecimal : IsDecimal (codes "850.50")
unfolding is_money
rate-IsDecimal = record {
  money = refl;
  pointed =
      (omega arith, (omega arith, (omega arith, (omega arith, (omega arith, (omega arith, tt))))));
}

volume-IsDecimal : IsDecimal (codes "20")
unfolding is_money
volume-IsDecimal = record { money = refl; pointed = (omega arith, (omega arith, tt)) }

rated_deal-IsStored : IsStored rated_deal
unfolding trim fields_of is_space
rated_deal-IsStored = record {
  title = (refl, refl);
  priced = (refl, refl, refl);
  fixed_value = tt;
  rate = rate-IsDecimal;
  volume = volume-IsDecimal;
  currency = (refl, refl);
  reason = refl;
  reason_text = (refl, refl);
  close_date = tt;
  probability = omega arith;
  notes = tt;
}

submit-to_defaults_example :
    submit (to_defaults (some rated_deal) record { contact = none; organization = none })
    ≡ some (fields_of rated_deal)
submit-to_defaults_example =
    submit-to_defaults rated_deal rated_deal-IsStored record { contact = none; organization = none }

-- A rate typed with a comma, and a contract sum left behind by the other pricing.
abbrev typed_deal : Values
typed_deal = record {
  title = codes " Data platform ";
  value_type = rate_based;
  fixed_value = codes "9000";
  rate = codes "850,50";
  rate_unit = some day;
  estimated_volume = [];
  volume_unit = some day;
  currency = codes "eur";
  stage = lost;
  lost_reason = codes "Too late";
  expected_close_date = [];
  probability = codes "0";
  contact_id = none;
  organization_id = none;
  notes = [];
}

submit-typed_deal : submit typed_deal ≡ some (to_body (trimmed typed_deal))
unfolding submit trim is_space value_from
submit-typed_deal = refl

submit-IsAllowed_example : IsAllowed (to_body (trimmed typed_deal))
submit-IsAllowed_example =
    submit-IsAllowed typed_deal (to_body (trimmed typed_deal)) submit-typed_deal

abbrev stored_contact : ContactCreate
stored_contact = record {
  name = codes "Ada Lovelace";
  job_title = none;
  organization_id = some (codes "o1");
  email = some (codes "ada@example.com");
  email_secondary = none;
  phone = none;
  phone_secondary = none;
  website = none;
  street = none;
  postal_code = none;
  city = some (codes "Wien");
  country = some (codes "AT");
  lifecycle_status = none;
  relation_type = none;
  source = none;
  works_with_freelancers = none;
  known_day_rate = some (codes "850");
  rate_currency = some (codes "EUR");
  preferred_language = some (codes "de");
  birthday = none;
  tags = codes "analytics" ∷ [];
  notes = none;
}

abbrev has_at : Text → Bool
has_at t = any (λ c. c == b'@') t

contact_rate-IsDecimal : IsDecimal (codes "850")
unfolding is_money
contact_rate-IsDecimal = record {
  money = refl;
  pointed = (omega arith, (omega arith, (omega arith, tt)));
}

stored_contact-IsStored : Contact.Unchanged.IsStored has_at stored_contact
unfolding trim is_space
stored_contact-IsStored = record {
  name = (refl, refl);
  job_title = tt;
  email = (refl, refl, refl);
  email_secondary = tt;
  phone = tt;
  phone_secondary = tt;
  website = tt;
  street = tt;
  postal_code = tt;
  city = (refl, refl);
  country = (refl, refl, refl);
  rate = (contact_rate-IsDecimal, refl, refl);
  preferred_language = (refl, refl, refl);
  birthday = tt;
  tags = (
    record {
      filled = refl;
      trimmed = refl;
      comma_free = (
        omega arith,
        (
          omega arith,
          (
            omega arith,
            (
              omega arith,
              (omega arith, (omega arith, (omega arith, (omega arith, (omega arith, tt))))),
            ),
          ),
        ),
      );
    },
    tt,
  );
  notes = tt;
}

contact_unchanged_example :
    Contact.submit has_at (Contact.to_defaults (some stored_contact) none) ≡ some stored_contact
contact_unchanged_example = contact_unchanged has_at stored_contact stored_contact-IsStored none

abbrev weekly_task : Task.Values
weekly_task = record {
  title = codes "Call back";
  description = [];
  due = codes "2026-10-05";
  rule = some weekly;
  interval = codes "2";
  until = codes "2026-12-01";
  contact_id = none;
  deal_id = none;
  interaction_id = none;
  priority = high;
  tags = [];
}

abbrev as_day : Text → Text
as_day t = t

submit-weekly_task :
    Task.submit as_day as_day weekly_task
    ≡ some (Task.to_body as_day as_day (Task.trimmed weekly_task))
unfolding Task.submit trim is_space value_from text_ltb
submit-weekly_task = refl

submit-IsSeries_example :
    IsSeries as_day as_day (Task.to_body as_day as_day (Task.trimmed weekly_task))
submit-IsSeries_example =
    submit-IsSeries as_day as_day weekly_task
      (Task.to_body as_day as_day (Task.trimmed weekly_task)) submit-weekly_task
