-- ===== src/Forms/Document.antt =====
-- The form of a document: frontend-next/src/components/DocumentForm.tsx. A file is its name, its size and
-- what is in it.
pub mod Upload
pub mod Unchanged
mod Tests
use tiny_crm.Prelude.{
  ℕ, ◌*◌, Bool, true, false, ◌&&◌, ◌||◌, not, Option, none, some, List, [], ◌∷◌, ◌++◌, Text, codes,
  text_eq, truthy, trim, all, ltb, ◌==◌, is_some, if◌then◌else◌,
}
use tiny_crm.Safe.{lower_text}
use tiny_crm.Format.{split_tags, format_bytes}
use tiny_crm.Format.Tags.{join_tags}
use tiny_crm.Forms.{Check, check, failing, when_valid, or_null, or_empty}
use tiny_crm.Forms.Links.{LinkPreset, preset_ids}

-- `FormInput`, and `FormOutput`, which differs in being trimmed.
pub record Values : Type 0 where
  pub title : Text
  pub description : Text
  pub tags : Text
  pub contact_ids : List Text
  pub organization_ids : List Text
  pub deal_ids : List Text
  pub project_ids : List Text

-- `DocumentFields`: also what the form reads of a `DocumentRead`.
pub record DocumentFields : Type 0 where
  pub title : Text
  pub description : Option Text
  pub tags : List Text
  pub contact_ids : List Text
  pub organization_ids : List Text
  pub deal_ids : List Text
  pub project_ids : List Text

-- `toDefaults`.
unfoldable pub to_defaults : Option DocumentFields → LinkPreset → Values
unfolding join_tags
to_defaults none preset = record {
  title = [];
  description = [];
  tags = [];
  contact_ids = preset_ids preset.contact_id;
  organization_ids = preset_ids preset.organization_id;
  deal_ids = preset_ids preset.deal_id;
  project_ids = preset_ids preset.project_id;
}
to_defaults (some d) preset = record {
  title = d.title;
  description = or_empty d.description;
  tags = join_tags d.tags;
  contact_ids = d.contact_ids;
  organization_ids = d.organization_ids;
  deal_ids = d.deal_ids;
  project_ids = d.project_ids;
}

-- The transforms of `formSchema`, and its check.
unfoldable pub trimmed : Values → Values
trimmed v = record v { title = trim v.title; description = trim v.description; tags = trim v.tags }

unfoldable pub checks : Values → List Check
checks v = check (truthy v.title) (codes "title") (codes "Title is required.") ∷ []

unfoldable pub to_fields : Values → DocumentFields
unfolding split_tags
to_fields v = record {
  title = v.title;
  description = or_null v.description;
  tags = split_tags v.tags;
  contact_ids = v.contact_ids;
  organization_ids = v.organization_ids;
  deal_ids = v.deal_ids;
  project_ids = v.project_ids;
}

unfoldable pub submit : Values → Option DocumentFields
unfolding trimmed checks to_fields failing
submit v = when_valid (failing (checks (trimmed v))) (to_fields (trimmed v))

-- `File`.
pub record File (F : Type 0) : Type 0 where
  pub name : Text
  pub size : ℕ
  pub content : F

-- `MAX_BYTES`.
abbrev pub max_bytes : ℕ
max_bytes = 25 * 1024 * 1024

abbrev pub ends_with : Text → Text → Bool
ends_with [] t = text_eq [] t
ends_with (c ∷ s) t = text_eq (c ∷ s) t || ends_with s t

-- `/\.(pdf|md|markdown|txt)$/i.test(name)`.
unfoldable pub is_accepted : Text → Bool
is_accepted name =
    ends_with (lower_text name) (codes ".pdf")
    || (ends_with (lower_text name) (codes ".md")
        || (ends_with (lower_text name) (codes ".markdown")
            || ends_with (lower_text name) (codes ".txt")))

-- `name.replace(/\.[^.]+$/, '')`.
unfoldable pub without_extension : Text → Text
without_extension [] = []
without_extension (c ∷ s) =
    let rest = without_extension s in
    if c == b'.' && (truthy s && all (λ d. not (d == b'.')) s) then [] else c ∷ rest

-- `DocumentForm`: its fields, the file and what is wrong with it.
pub record DocumentForm (F : Type 0) : Type 0 where
  pub values : Values
  pub file : Option (File F)
  pub file_error : Option Text

-- The fields edited, the first file of a pick, and the form submitted.
pub data Event (F : Type 0) : Type 0 where
  edit : Values → Event F
  select : Option (File F) → Event F
  press_submit : Event F

module _ {F : Type 0} where
  -- `setFile`, `setFileError`, and the title of a file that is chosen while there is none.
  abbrev pub titled_by : Option (File F) → Values → Values
  unfolding without_extension
  titled_by none v = v
  titled_by (some f) v = if truthy v.title then v else record v { title = without_extension f.name }

  unfoldable pub on_change : Option (File F) → Option Text → DocumentForm F → DocumentForm F
  on_change f problem form = record {
    values = titled_by f form.values;
    file = f;
    file_error = problem;
  }

  -- `onSelect` of `FilePicker`.
  unfoldable pub on_select : Option (File F) → DocumentForm F → DocumentForm F
  unfolding is_accepted format_bytes on_change
  on_select none form = form
  on_select (some f) form =
      if not (is_accepted f.name)
      then on_change none (some (codes "Only PDF, Markdown and text files.")) form
      else if ltb max_bytes f.size
      then on_change none (some (codes "Larger than " ++ (format_bytes max_bytes ++ codes ".")))
          form
      else on_change (some f) none form

  -- `onSubmit` of the form: what is handed on, if anything is. A new document needs a file.
  abbrev pub missing : Bool → Option (File F) → Bool
  missing with_file file = with_file && not (is_some file)

  abbrev pub with_its_file :
      Option (File F) → Option DocumentFields → Option (DocumentFields × Option (File F))
  with_its_file file none = none
  with_its_file file (some fields) = some (fields, file)

  unfoldable pub handed_on : Bool → DocumentForm F → Option (DocumentFields × Option (File F))
  unfolding submit
  handed_on with_file form =
      if missing with_file form.file then none else with_its_file form.file (submit form.values)

  unfoldable pub step : Bool → Event F → DocumentForm F → DocumentForm F
  unfolding on_select
  step with_file (edit v) form = record form { values = v }
  step with_file (select f) form = on_select f form
  step with_file press_submit form =
      if missing with_file form.file
      then record form { file_error = some (codes "Choose a file to upload.") }
      else form

  unfoldable pub run : Bool → List (Event F) → DocumentForm F → DocumentForm F
  unfolding step
  run with_file [] form = form
  run with_file (e ∷ es) form = run with_file es (step with_file e form)

  -- The form as it opens.
  abbrev pub opened : Option DocumentFields → LinkPreset → DocumentForm F
  unfolding to_defaults
  opened d preset = record { values = to_defaults d preset; file = none; file_error = none }
