-- ===== src/Pickers.antt =====
-- Choosing records by typing part of their names: one of them (useRecordPickerState of
-- frontend-next/src/components/RecordPickers.tsx) or many (LinksPicker of components/LinksPicker.tsx).
-- What the combobox reports is an event, with the options that it showed.
pub mod Links
pub mod Single
mod Tests
use tiny_crm.Prelude.{
  Bool, true, false, ◌&&◌, ◌||◌, not, Option, none, some, List, [], ◌∷◌, ◌++◌, filter, any, Text,
  text_eq, truthy, if◌then◌else◌,
}

-- `PickerOption`, as far as the handlers read it.
pub record PickerOption : Type 0 where
  pub id : Text
  pub label : Text

-- `options.find((o) => o.id === id)?.label ?? null`.
unfoldable pub find_label : Text → List PickerOption → Option Text
find_label id [] = none
find_label id (o ∷ os) =
    let rest = find_label id os in if text_eq o.id id then some o.label else rest

-- `value.includes(id)`.
abbrev pub includes : List Text → Text → Bool
includes value id = any (λ v. text_eq v id) value

-- `LinksPicker`: the ids, the text of the field and the write that is to be swallowed.
pub record LinksPicker : Type 0 where
  pub value : List Text
  pub text : Text
  pub added : Option Text

-- `found.options.filter((o) => !value.includes(o.id))`.
abbrev pub offered : List PickerOption → List Text → List PickerOption
offered found value = filter (λ o. not (includes value o.id)) found

pub data LinksEvent : Type 0 where
  choose : Option Text → List PickerOption → LinksEvent
  write : Text → LinksEvent
  remove : Text → LinksEvent

-- `onChange` of the combobox, by the options that were found.
abbrev pub choose_id : Option Text → List PickerOption → LinksPicker → LinksPicker
choose_id none found p = record p { text = [] }
choose_id (some id) found p =
    if truthy id && not (includes p.value id)
    then record {
      value = p.value ++ (id ∷ []);
      text = [];
      added = find_label id (offered found p.value);
    }
    else record p { text = [] }

abbrev pub is_added : Option Text → Text → Bool
is_added none t = false
is_added (some a) t = text_eq t a

-- `onInputChange`.
abbrev pub write_text : Text → LinksPicker → LinksPicker
write_text t p =
    if is_added p.added t then record p { added = none } else record p { added = none; text = t }

-- `value.filter((v) => v !== id)`.
abbrev pub remove_id : Text → LinksPicker → LinksPicker
remove_id id p = record p { value = filter (λ v. not (text_eq v id)) p.value }

unfoldable pub links_step : LinksEvent → LinksPicker → LinksPicker
links_step (choose id found) p = choose_id id found p
links_step (write t) p = write_text t p
links_step (remove id) p = remove_id id p

unfoldable pub links_run : List LinksEvent → LinksPicker → LinksPicker
links_run [] p = p
links_run (e ∷ es) p = links_run es (links_step e p)

-- `useRecordPickerState`, with the id that the form holds.
pub record RecordPicker : Type 0 where
  pub value : Option Text
  pub text : Text
  pub selected_label : Text

pub data PickEvent : Type 0 where
  select : Option Text → List PickerOption → PickEvent
  input : Text → PickEvent

-- The label of a match, if there is one.
abbrev pub show_match : Option Text → RecordPicker → RecordPicker
show_match none p = p
show_match (some label) p = record p { selected_label = label; text = label }

-- `onSelect`.
abbrev pub on_select : Option Text → List PickerOption → RecordPicker → RecordPicker
on_select none options p = record { value = none; text = []; selected_label = [] }
on_select (some id) options p =
    if truthy id
    then show_match (find_label id options) (record p { value = some id })
    else record { value = some id; text = []; selected_label = [] }

-- `onInput`.
abbrev pub on_input : Text → RecordPicker → RecordPicker
on_input [] p = record { value = none; text = []; selected_label = [] }
on_input (c ∷ s) p = record p { text = c ∷ s }

unfoldable pub pick_step : PickEvent → RecordPicker → RecordPicker
pick_step (select id options) p = on_select id options p
pick_step (input t) p = on_input t p

unfoldable pub pick_run : List PickEvent → RecordPicker → RecordPicker
pick_run [] p = p
pick_run (e ∷ es) p = pick_run es (pick_step e p)

-- `options.some((o) => o.id === value)`.
abbrev pub has_option : Text → List PickerOption → Bool
has_option id options = any (λ o. text_eq o.id id) options

-- The options that are shown: what is chosen is among them.
abbrev pub shown_options : Option Text → Text → List PickerOption → List PickerOption
shown_options none label options = options
shown_options (some id) label options =
    if truthy id && truthy label && not (has_option id options)
    then record { id = id; label = label } ∷ options
    else options
