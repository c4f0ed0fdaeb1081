-- ===== src/Forms/Project.antt =====
-- The form of a project: frontend-next/src/components/ProjectForm.tsx.
pub mod Dates
mod Tests
use tiny_crm.Prelude.{
  Bool, true, false, ◌||◌, not, Option, none, some, List, [], ◌∷◌, Text, codes, truthy, trim,
}
use tiny_crm.Due.{text_ltb}
use tiny_crm.Forms.{Check, check, failing, when_valid, or_null, or_empty}

-- `FormValues`.
pub record Values : Type 0 where
  pub name : Text
  pub description : Text
  pub start_date : Text
  pub end_date : Text

-- `ProjectFields`: also what the form reads of a `ProjectRead`.
pub record ProjectFields : Type 0 where
  pub name : Text
  pub description : Option Text
  pub start_date : Text
  pub end_date : Option Text

-- The transforms of `formSchema`.
unfoldable pub trimmed : Values → Values
trimmed v = record v { name = trim v.name; description = trim v.description }

-- The checks of `formSchema`, on the trimmed values.
unfoldable pub checks : Values → List Check
checks v =
    check (truthy v.name) (codes "name") (codes "Name is required.")
    ∷ check (truthy v.start_date) (codes "start_date") (codes "When does it start?")
    ∷ check
        (not (truthy v.end_date)
          || (not (truthy v.start_date) || not (text_ltb v.end_date v.start_date)))
        (codes "end_date") (codes "Cannot end before it starts.")
    ∷ []

unfoldable pub to_fields : Values → ProjectFields
to_fields v = record {
  name = v.name;
  description = or_null v.description;
  start_date = v.start_date;
  end_date = or_null v.end_date;
}

-- `defaultValues`.
unfoldable pub to_defaults : Option ProjectFields → Values
to_defaults none = record { name = []; description = []; start_date = []; end_date = [] }
to_defaults (some p) = record {
  name = p.name;
  description = or_empty p.description;
  start_date = p.start_date;
  end_date = or_empty p.end_date;
}

unfoldable pub submit : Values → Option ProjectFields
unfolding trimmed checks to_fields failing
submit v = when_valid (failing (checks (trimmed v))) (to_fields (trimmed v))
