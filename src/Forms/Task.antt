-- ===== src/Forms/Task.antt =====
-- The form of a task: frontend-next/src/components/TaskForm.tsx. `local_day` and `end_of_local_day` are
-- those of frontend-next/src/format.ts, which follow the zone of the browser.
pub mod Repeats
use tiny_crm.Prelude.{
  ℕ, Bool, true, false, ◌&&◌, ◌||◌, not, Option, none, some, List, [], ◌∷◌, ◌++◌, Text, codes,
  truthy, trim, join, given, value_from, nat_text, leb, ◌==◌, if◌then◌else◌, is_some,
}
use tiny_crm.Due.{text_ltb}
use tiny_crm.Format.{split_tags}
use tiny_crm.Forms.{Check, check, failing, when_valid, or_null, or_empty, if_given, is_number}

-- `recurrence_rule`; '' is `none` in the form.
pub data Rule : Type 0 where
  daily weekly monthly yearly : Rule

-- `'0' | '1' | '2'`.
pub data Priority : Type 0 where
  low medium high : Priority

pub record Values : Type 0 where
  pub title : Text
  pub description : Text
  pub due : Text
  pub rule : Option Rule
  pub interval : Text
  pub until : Text
  pub contact_id : Option Text
  pub deal_id : Option Text
  pub interaction_id : Option Text
  pub priority : Priority
  pub tags : Text

-- `TaskFields`: also what the form reads of a `TaskRead`.
pub record TaskFields : Type 0 where
  pub title : Text
  pub description : Option Text
  pub due_date : Option Text
  pub recurrence_rule : Option Rule
  pub recurrence_interval : ℕ
  pub recurrence_until : Option Text
  pub contact_id : Option Text
  pub deal_id : Option Text
  pub interaction_id : Option Text
  pub priority : ℕ
  pub tags : List Text

-- The ids of `TaskLinks`.
pub record TaskLinks : Type 0 where
  pub contact : Option Text
  pub deal : Option Text
  pub interaction : Option Text

-- `MAX_RECURRENCE_INTERVAL`.
abbrev pub max_recurrence_interval : ℕ
max_recurrence_interval = 366

unfoldable pub trimmed : Values → Values
trimmed v = record v {
  title = trim v.title;
  description = trim v.description;
  interval = trim v.interval;
  tags = trim v.tags;
}

-- The checks of `formSchema`, on the trimmed values.
unfoldable pub checks : Values → List Check
unfolding is_number
checks v =
    check (truthy v.title) (codes "title") (codes "Title is required.")
    ∷ check
        (is_number v.interval
          && leb 1 (value_from 0 v.interval)
          && leb (value_from 0 v.interval) max_recurrence_interval)
        (codes "interval") (codes "A whole number from 1 to 366.")
    ∷ check (not (is_some v.rule) || truthy v.due) (codes "due")
        (codes "A repeating task needs a due date to repeat from.")
    ∷ check
        (not (is_some v.rule)
          || not (truthy v.until)
          || not (truthy v.due)
          || not (text_ltb v.until v.due))
        (codes "until") (codes "Cannot end before the due date.")
    ∷ []

abbrev pub priority_value : Priority → ℕ
priority_value low = 0
priority_value medium = 1
priority_value high = 2

-- `String(Math.min(2, Math.max(0, p)))`.
abbrev pub priority_of : ℕ → Priority
priority_of p = if p == 0 then low else if p == 1 then medium else high

module _ (local_day end_of_local_day : Text → Text) where
  -- `toBody`.
  unfoldable pub to_body : Values → TaskFields
  unfolding split_tags
  to_body v = record {
    title = v.title;
    description = or_null v.description;
    due_date = if_given end_of_local_day v.due;
    recurrence_rule = v.rule;
    recurrence_interval = if is_some v.rule then value_from 0 v.interval else 1;
    recurrence_until =
        if is_some v.rule && truthy v.until then some (end_of_local_day v.until) else none;
    contact_id = v.contact_id;
    deal_id = v.deal_id;
    interaction_id = v.interaction_id;
    priority = priority_value v.priority;
    tags = split_tags v.tags;
  }

  abbrev pub day_or_empty : Option Text → Text
  day_or_empty none = []
  day_or_empty (some iso) = local_day iso

  -- `toDefaults`.
  unfoldable pub to_defaults : Option TaskFields → TaskLinks → Values
  unfolding join
  to_defaults none links = record {
    title = [];
    description = [];
    due = [];
    rule = none;
    interval = codes "1";
    until = [];
    contact_id = links.contact;
    deal_id = links.deal;
    interaction_id = links.interaction;
    priority = low;
    tags = [];
  }
  to_defaults (some t) links = record {
    title = t.title;
    description = or_empty t.description;
    due = day_or_empty (given t.due_date);
    rule = t.recurrence_rule;
    interval = nat_text t.recurrence_interval;
    until = day_or_empty (given t.recurrence_until);
    contact_id = t.contact_id;
    deal_id = t.deal_id;
    interaction_id = t.interaction_id;
    priority = priority_of t.priority;
    tags = join (codes ", ") t.tags;
  }

  unfoldable pub submit : Values → Option TaskFields
  unfolding trimmed checks to_body failing
  submit v = when_valid (failing (checks (trimmed v))) (to_body (trimmed v))
