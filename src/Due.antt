-- ===== src/Due.antt =====
-- What is due, planned, overdue or finished: isDue, dueLabel and cadenceLabel of
-- frontend-next/src/watches.ts, recurrenceLabel and isOverdue of frontend-next/src/tasks.ts, isPlanned
-- and isOverdueInteraction of frontend-next/src/interactions.ts, statusOf of
-- frontend-next/src/projects.ts. `moment` stands for `Date.parse`, in milliseconds, and is `none`
-- where that is NaN, with which every comparison is false; `day` for the locale's text of a day.
pub mod Status
pub mod Overdue
mod Tests
use tiny_crm.Prelude.{
  ℕ, ◌-◌, ◌/◌, Bool, true, false, ◌&&◌, ◌||◌, not, Option, none, some, List, [], ◌∷◌, ◌++◌, Text,
  codes, text_eq, truthy, given, nat_text, ltb, leb, ◌==◌, if◌then◌else◌, find,
}

-- `a < b` on texts: by code units.
unfoldable pub text_ltb : Text → Text → Bool
text_ltb s [] = false
text_ltb [] (d ∷ t) = true
text_ltb (c ∷ s) (d ∷ t) = ltb c d || (c == d && text_ltb s t)

pub data ProjectStatus : Type 0 where
  active upcoming completed : ProjectStatus

-- `statusOf`, of `start_date`, `end_date` ('' where there is none) and the day.
unfoldable pub status_of : Text → Text → Text → ProjectStatus
status_of start_date end_date today =
    if truthy end_date && text_ltb end_date today
    then completed
    else if text_ltb today start_date
    then upcoming
    else active

-- `a <= b`, `a < b` of two moments.
abbrev pub moment_le : Option ℕ → ℕ → Bool
moment_le none now = false
moment_le (some t) now = leb t now

abbrev pub moment_lt : Option ℕ → ℕ → Bool
moment_lt none now = false
moment_lt (some t) now = ltb t now

abbrev pub moment_gt : Option ℕ → ℕ → Bool
moment_gt none now = false
moment_gt (some t) now = ltb now t

-- `recurrenceOptions`.
pub record RecurrenceOption : Type 0 where
  pub value : Text
  pub lower_label : Text
  pub unit : Text
  pub units : Text

abbrev pub recurrence_options : List RecurrenceOption
recurrence_options =
    record {
      value = codes "daily";
      lower_label = codes "daily";
      unit = codes "day";
      units = codes "days";
    }
    ∷ record {
      value = codes "weekly";
      lower_label = codes "weekly";
      unit = codes "week";
      units = codes "weeks";
    }
    ∷ record {
      value = codes "monthly";
      lower_label = codes "monthly";
      unit = codes "month";
      units = codes "months";
    }
    ∷ record {
      value = codes "yearly";
      lower_label = codes "yearly";
      unit = codes "year";
      units = codes "years";
    }
    ∷ []

abbrev pub option_of : Text → Option RecurrenceOption
option_of rule = find (λ o. text_eq o.value rule) recurrence_options

abbrev pub cadence_of : Text → ℕ → Option RecurrenceOption → Text
cadence_of rule interval none = rule
cadence_of rule interval (some o) =
    if interval == 1
    then codes "Every " ++ o.unit
    else codes "Every " ++ (nat_text interval ++ (codes " " ++ o.units))

-- `cadenceLabel`, of the rule and the interval.
unfoldable pub cadence_label : Text → ℕ → Text
cadence_label rule interval = cadence_of rule interval (option_of rule)

abbrev pub days_late : Option ℕ → ℕ → ℕ
days_late none now = 0
days_late (some t) now = (now - t) / 86400000

abbrev pub late_label : ℕ → Text
late_label days =
    if days == 0
    then codes "Due today"
    else if days == 1
    then codes "1 day overdue"
    else nat_text days ++ codes " days overdue"

module _ (moment : Text → Option ℕ) (day : Text → Text) where
  -- `isDue`.
  unfoldable pub is_due : Bool → Text → ℕ → Bool
  is_due is_active next_due_at now = is_active && moment_le (moment next_due_at) now

  -- `dueLabel`; `last_checked_at` is '' where there is none. The days are counted of a due watch only,
  -- whose moment is read.
  unfoldable pub due_label : Bool → Text → Text → ℕ → Text
  unfolding is_due
  due_label is_active last_checked_at next_due_at now =
      if not (truthy last_checked_at)
      then codes "Never checked"
      else if not (is_due is_active next_due_at now)
      then codes "Due " ++ day next_due_at
      else late_label (days_late (moment next_due_at) now)

  -- `isOverdue` of a task; `due_date` is `none` where there is none.
  abbrev pub due_before : Option Text → ℕ → Bool
  due_before none now = false
  due_before (some due_date) now = moment_lt (moment due_date) now

  unfoldable pub is_overdue : Bool → Option Text → ℕ → Bool
  is_overdue done due_date now = not done && due_before due_date now

  -- `isPlanned` and `isOverdueInteraction`.
  unfoldable pub is_planned : Text → ℕ → Bool
  is_planned occurred_at now = moment_gt (moment occurred_at) now

  unfoldable pub is_overdue_interaction : Bool → Text → ℕ → Bool
  is_overdue_interaction done occurred_at now = not done && moment_le (moment occurred_at) now

  abbrev pub repeats : Option Text → Text → Text
  repeats none every = codes "Repeats " ++ every
  repeats (some until) every = codes "Repeats " ++ (every ++ (codes " until " ++ day until))

  abbrev pub recurrence_of : ℕ → Option Text → Option RecurrenceOption → Option Text
  recurrence_of interval until none = none
  recurrence_of interval until (some o) = some (
      repeats until (
        if interval == 1
        then o.lower_label
        else codes "every " ++ (nat_text interval ++ (codes " " ++ o.units))))

  -- `recurrenceLabel`, of the rule ('' where there is none), the interval and the last day.
  unfoldable pub recurrence_label : Text → ℕ → Option Text → Option Text
  recurrence_label rule interval until = recurrence_of interval (given until) (option_of rule)
