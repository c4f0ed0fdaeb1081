-- ===== src/Triage.antt =====
-- Working the inbox, one capture after the other: frontend-next/src/routes/_authed/inbox/$captureId.tsx.
pub mod Queue
pub mod Converts
mod Tests
use tiny_crm.Prelude.{
  ℕ, zero, suc, Bool, true, false, ◌&&◌, ◌||◌, not, Option, none, some, List, [], ◌∷◌, ◌++◌, Text,
  codes, text_eq, trim, truthy, if◌then◌else◌,
}
use tiny_crm.Queries.Stale.{Filter, invalidate_after_capture}
use tiny_crm.Forms.{Check, check, failing, when_valid, or_null, or_empty}

-- What the page reads of a `CaptureRead`.
pub record Capture : Type 0 where
  pub id : Text
  pub raw : Text
  pub name : Option Text
  pub url : Option Text

abbrev pub after_head : Option ℕ → Option ℕ
after_head none = none
after_head (some i) = some (suc i)

-- `queue.findIndex((c) => c.id === captureId)`.
unfoldable pub find_index : Text → List Capture → Option ℕ
find_index id [] = none
find_index id (c ∷ cs) =
    let rest = find_index id cs in if text_eq c.id id then some 0 else after_head rest

-- `position + 1`, where no position is -1.
abbrev pub next_index : Option ℕ → ℕ
next_index none = 0
next_index (some i) = suc i

abbrev pub at : ℕ → List Capture → Option Capture
at n [] = none
at zero (c ∷ cs) = some c
at (suc n) (c ∷ cs) = at n cs

-- `queue.find((c) => c.id !== captureId)`.
unfoldable pub find_other : Text → List Capture → Option Capture
find_other id [] = none
find_other id (c ∷ cs) = let rest = find_other id cs in if text_eq c.id id then rest else some c

abbrev pub or_other : Option Capture → Option Capture → Option Capture
or_other none other = other
or_other (some c) other = some c

-- `next`.
unfoldable pub next_of : List Capture → Text → Option Capture
unfolding find_index find_other
next_of queue id = or_other (at (next_index (find_index id queue)) queue) (find_other id queue)

pub data Mode : Type 0 where
  create existing : Mode

pub record Values : Type 0 where
  pub mode : Mode
  pub contact_id : Option Text
  pub name : Text
  pub job_title : Text
  pub email : Text
  pub website : Text
  pub organization_id : Option Text
  pub open_deal : Bool
  pub deal_title : Text
  pub log_message : Bool
  pub subject : Text
  pub message_notes : Text

abbrev pub outreach : Text → Text
outreach [] = codes "Outreach"
outreach (c ∷ s) = codes "Outreach – " ++ (c ∷ s)

abbrev pub wrote_to : Text → Text
wrote_to [] = codes "Wrote to them"
wrote_to (c ∷ s) = codes "Wrote to " ++ (c ∷ s)

-- `defaultsFor`.
abbrev pub defaults_for : Capture → Values
defaults_for c = record {
  mode = create;
  contact_id = none;
  name = or_empty c.name;
  job_title = [];
  email = [];
  website = or_empty c.url;
  organization_id = none;
  open_deal = true;
  deal_title = outreach (or_empty c.name);
  log_message = true;
  subject = wrote_to (or_empty c.name);
  message_notes = [];
}

-- The transforms of `formSchema`.
unfoldable pub trimmed : Values → Values
trimmed v = record v {
  name = trim v.name;
  job_title = trim v.job_title;
  email = trim v.email;
  website = trim v.website;
  deal_title = trim v.deal_title;
  subject = trim v.subject;
  message_notes = trim v.message_notes;
}

abbrev pub is_new : Mode → Bool
is_new create = true
is_new existing = false

abbrev pub is_picked : Option Text → Bool
is_picked none = false
is_picked (some id) = truthy id

pub record Person : Type 0 where
  pub name : Text
  pub job_title : Option Text
  pub email : Option Text
  pub website : Option Text
  pub organization_id : Option Text
  pub lifecycle_status : Text
  pub tags : List Text

pub record Message : Type 0 where
  pub kind : Text
  pub subject : Text
  pub notes : Option Text

-- `contact_id` or `contact`.
pub data Who : Type 0 where
  known : Option Text → Who
  person : Person → Who

pub record CaptureConvert : Type 0 where
  pub who : Who
  pub deal : Option Text
  pub interaction : Option Message

abbrev pub who_of : Values → Mode → Who
who_of v existing = known v.contact_id
who_of v create = person record {
  name = v.name;
  job_title = or_null v.job_title;
  email = or_null v.email;
  website = or_null v.website;
  organization_id = v.organization_id;
  lifecycle_status = codes "lead";
  tags = [];
}

-- `toBody`.
unfoldable pub to_body : Values → CaptureConvert
to_body v = record {
  who = who_of v v.mode;
  deal = if v.open_deal then some v.deal_title else none;
  interaction =
      if v.log_message
      then some
          (record { kind = codes "email"; subject = v.subject; notes = or_null v.message_notes })
      else none;
}

-- What zod takes for an address of e-mail is a parameter.
module _ (is_email : Text → Bool) where
  -- The issues of `superRefine`.
  unfoldable pub checks : Values → List Check
  checks v =
      check (not (is_new v.mode) || truthy v.name) (codes "name") (codes "Name is required.")
      ∷ check (not (is_new v.mode) || not (truthy v.email) || is_email v.email) (codes "email")
          (codes "Enter a valid email address.")
      ∷ check (is_new v.mode || is_picked v.contact_id) (codes "contactId")
          (codes "Pick the contact this is.")
      ∷ check (not v.open_deal || truthy v.deal_title) (codes "dealTitle")
          (codes "The lead needs a title.")
      ∷ check (not v.log_message || truthy v.subject) (codes "subject")
          (codes "The message needs a subject.")
      ∷ []

  unfoldable pub submit : Values → Option CaptureConvert
  unfolding trimmed checks to_body failing
  submit v = when_valid (failing (checks (trimmed v))) (to_body (trimmed v))

-- Where the page goes, with the line that is shown there.
pub data Place : Type 0 where
  triage : Text → Text → Place
  inbox : Text → Place

-- `advance`.
unfoldable pub advance : Option Capture → Text → Place
advance none flash = inbox (flash ++ codes " That was the last one.")
advance (some c) flash =
    if truthy c.id then triage c.id flash else inbox (flash ++ codes " That was the last one.")

-- What a success makes stale, and where it leads.
pub record Outcome : Type 0 where
  pub stale : List Filter
  pub place : Place

abbrev pub convert_flash : Text → Bool → Text
convert_flash name true = name ++ codes " is a lead."
convert_flash name false = name ++ codes " is filed."

-- `onSuccess` of `convert` and of `dismiss`.
unfoldable pub converted : Option Capture → Text → Bool → Outcome
unfolding advance
converted next name has_deal = record {
  stale = invalidate_after_capture true;
  place = advance next (convert_flash name has_deal);
}

abbrev pub name_or_raw : Capture → Text
name_or_raw c = name_from c.name
  where
    name_from : Option Text → Text
    name_from none = c.raw
    name_from (some name) = name

unfoldable pub dismissed : Option Capture → Capture → Outcome
unfolding advance
dismissed next c = record {
  stale = invalidate_after_capture false;
  place = advance next (codes "Dismissed " ++ name_or_raw c ++ codes ".");
}
