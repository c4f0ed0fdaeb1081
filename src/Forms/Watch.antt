-- ===== src/Forms/Watch.antt =====
-- The form of a source: frontend-next/src/components/WatchForm.tsx.
pub mod Opens
mod Tests
use tiny_crm.Prelude.{
  ℕ, Bool, true, false, ◌&&◌, ◌||◌, not, Option, none, some, List, [], ◌∷◌, ◌++◌, Text, codes,
  truthy, trim, all, is_space, value_from, nat_text, leb, ◌==◌, if◌then◌else◌,
}
use tiny_crm.Safe.{is_http}
use tiny_crm.Forms.{Check, check, failing, when_valid, or_null, or_empty, is_number, after_http}
use tiny_crm.Forms.Task.{Rule, weekly, max_recurrence_interval}

-- `WatchRead['kind']`.
pub data Kind : Type 0 where
  job_board careers_page tender_portal other : Kind

pub record Values : Type 0 where
  pub name : Text
  pub url : Text
  pub kind : Kind
  pub query_note : Text
  pub organization_id : Option Text
  pub recurrence_rule : Rule
  pub recurrence_interval : Text
  pub active : Bool
  pub notes : Text

-- `WatchCreate`: also what the form reads of a `WatchRead`.
pub record WatchCreate : Type 0 where
  pub name : Text
  pub url : Text
  pub kind : Kind
  pub query_note : Option Text
  pub organization_id : Option Text
  pub recurrence_rule : Rule
  pub recurrence_interval : ℕ
  pub active : Bool
  pub notes : Option Text

-- The transforms of `formSchema`.
unfoldable pub trimmed : Values → Values
trimmed v = record v {
  name = trim v.name;
  url = trim v.url;
  query_note = trim v.query_note;
  recurrence_interval = trim v.recurrence_interval;
  notes = trim v.notes;
}

-- `[^\s/$.?#]`, and what `.` leaves out.
abbrev pub starts_host : ℕ → Bool
starts_host c =
    not (is_space c)
    && not (c == b'/')
    && not (c == b'$')
    && not (c == b'.')
    && not (c == b'?')
    && not (c == b'#')

abbrev pub is_line_break : ℕ → Bool
is_line_break c = c == 10 || c == 13 || c == 8232 || c == 8233

-- `[^\s/$.?#].[^\s]*$`.
abbrev pub is_host : Text → Bool
is_host [] = false
is_host (c ∷ []) = false
is_host (c ∷ d ∷ s) = starts_host c && not (is_line_break d) && all (λ x. not (is_space x)) s

abbrev pub is_host_after : Option Text → Bool
is_host_after none = false
is_host_after (some s) = is_host s

-- `/^(https?:\/\/)?[^\s/$.?#].[^\s]*$/i`: with the scheme, or without it.
unfoldable pub is_web : Text → Bool
unfolding after_http
is_web v = is_host_after (after_http v) || is_host v

-- The checks of `formSchema`, on the trimmed values.
unfoldable pub checks : Values → List Check
unfolding is_number
checks v =
    check (truthy v.name) (codes "name") (codes "Name is required.")
    ∷ check (truthy v.url) (codes "url") (codes "Where is it?")
    ∷ check (is_web v.url) (codes "url") (codes "A web address, like https://jobs.example.com.")
    ∷ check
        (is_number v.recurrence_interval
          && leb 1 (value_from 0 v.recurrence_interval)
          && leb (value_from 0 v.recurrence_interval) max_recurrence_interval)
        (codes "recurrence_interval") (codes "A whole number from 1 to 366.")
    ∷ []

-- `toBody`.
unfoldable pub to_body : Values → WatchCreate
to_body v = record {
  name = v.name;
  url = if is_http v.url then v.url else codes "https://" ++ v.url;
  kind = v.kind;
  query_note = or_null v.query_note;
  organization_id = v.organization_id;
  recurrence_rule = v.recurrence_rule;
  recurrence_interval = value_from 0 v.recurrence_interval;
  active = v.active;
  notes = or_null v.notes;
}

-- `defaultValues`.
unfoldable pub to_defaults : Option WatchCreate → Values
to_defaults none = record {
  name = [];
  url = [];
  kind = job_board;
  query_note = [];
  organization_id = none;
  recurrence_rule = weekly;
  recurrence_interval = codes "1";
  active = true;
  notes = [];
}
to_defaults (some w) = record {
  name = w.name;
  url = w.url;
  kind = w.kind;
  query_note = or_empty w.query_note;
  organization_id = w.organization_id;
  recurrence_rule = w.recurrence_rule;
  recurrence_interval = nat_text w.recurrence_interval;
  active = w.active;
  notes = or_empty w.notes;
}

unfoldable pub submit : Values → Option WatchCreate
unfolding trimmed checks to_body failing
submit v = when_valid (failing (checks (trimmed v))) (to_body (trimmed v))
