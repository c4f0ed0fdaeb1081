-- ===== src/TagPicker.antt =====
-- The tag field: frontend-next/src/components/TagPicker.tsx, without its markup. `lower` stands for
-- `toLowerCase`, which follows the tables of Unicode. `value` is what the form's field holds after
-- `onChange`, read back as `FormTagPicker` reads it, `text` is the input's state and `added` the reference of that name.
pub mod Valid
pub mod Held
mod Tests
use tiny_crm.Prelude.{
  Bool, true, false, not, ◌&&◌, ◌||◌, Option, none, some, List, [], ◌∷◌, ◌++◌, map, Text, codes,
  text_eq, truthy, trim, trim_start, split, includes, filter, find, any, get_last?, if◌then◌else◌,
  ℕ,
}
use tiny_crm.Format.{split_tags}
use tiny_crm.Format.Tags.{join_tags}

pub record TagOption : Type 0 where
  pub id : Text
  pub label : Text
  pub is_new : Bool
  pub tag : Text

pub record TagPicker : Type 0 where
  pub value : List Text
  pub text : Text
  pub added : Option Text

-- `parts.pop() ?? ''` and what it leaves.
abbrev pub last_part : List Text → Text
last_part [] = []
last_part (p ∷ []) = p
last_part (p ∷ q ∷ ps) = last_part (q ∷ ps)

abbrev pub init_parts : List Text → List Text
init_parts [] = []
init_parts (p ∷ []) = []
init_parts (p ∷ q ∷ ps) = p ∷ init_parts (q ∷ ps)

-- What the user does: types or pastes, picks an option, presses a key, leaves the field, or presses
-- the button of a tag. Enter knows whether an option is active; keys pressed while composing do nothing.
pub data Event : Type 0 where
  input : Text → Event
  select : Option Text → Event
  comma : Event
  enter : Bool → Event
  backspace : Event
  blur : Event
  remove : Text → Event

abbrev pub existing_option : Text → TagOption
existing_option t = record { id = codes "tag:" ++ t; label = t; is_new = false; tag = t }

abbrev pub new_option : Text → TagOption
new_option q = record {
  id = codes "new:" ++ q;
  label = codes "Add “" ++ (q ++ codes "”");
  is_new = true;
  tag = q;
}

-- `added.current !== null && (t === added.current || t === '')`.
abbrev pub is_echo : Option Text → Text → Bool
is_echo none t = false
is_echo (some a) t = text_eq t a || not (truthy t)

module _ (lower : Text → Text) where
  abbrev pub same : Text → Text → Bool
  same v w = text_eq (lower v) (lower w)

  -- Whether a tag is in the list, whatever its case.
  abbrev pub has : List Text → Text → Bool
  has value tag = any (λ v. same v tag) value

  -- `availableExisting`, `matchingExisting` and `options`.
  unfoldable pub available_existing : List Text → List Text → List Text
  available_existing all_tags value = filter (λ t. not (has value t)) all_tags

  unfoldable pub matching_existing : List Text → List Text → Text → List Text
  unfolding available_existing
  matching_existing all_tags value text =
      if truthy (trim text)
      then filter (λ t. includes (lower t) (lower (trim text))) (available_existing all_tags value)
      else available_existing all_tags value

  unfoldable pub options : List Text → List Text → Text → List TagOption
  unfolding matching_existing
  options all_tags value text =
      map existing_option (matching_existing all_tags value text)
      ++ (if truthy (trim text)
            && (not (has value (trim text))
                && not (has (available_existing all_tags value) (trim text)))
          then new_option (trim text) ∷ []
          else [])

  -- `addTag`'s call of `onChange`, and one round of the loop over pasted tags.
  unfoldable pub push_tag : List Text → Text → List Text
  push_tag value tag = if has value tag then value else value ++ tag ∷ []

  unfoldable pub push_tags : List Text → List Text → List Text
  unfolding push_tag
  push_tags value [] = value
  push_tags value (tag ∷ tags) = push_tags (push_tag value tag) tags

  unfoldable pub add_tag : Text → TagPicker → TagPicker
  unfolding push_tag
  add_tag new_tag s =
      if truthy (trim new_tag)
      then record s { value = push_tag s.value (trim new_tag); text = [] }
      else s

  unfoldable pub remove_tag : Text → TagPicker → TagPicker
  remove_tag tag s = record s { value = filter (λ v. not (same v tag)) s.value }

  unfoldable pub handle_input_change : Text → TagPicker → TagPicker
  unfolding push_tags
  handle_input_change t s =
      if is_echo s.added t
      then record s { text = []; added = none }
      else if includes t (codes ",")
      then record s {
        value = push_tags s.value (filter truthy (map trim (init_parts (split b',' t))));
        text = trim_start (last_part (split b',' t));
        added = none;
      }
      else record s { text = t; added = none }

  -- The option with the chosen key, if there is one.
  unfoldable pub pick : Option TagOption → TagPicker → TagPicker
  pick none s = s
  pick (some o) s = add_tag o.tag (record s { added = some o.label })

  unfoldable pub handle_selection_change : List Text → Option Text → TagPicker → TagPicker
  unfolding options pick add_tag
  handle_selection_change all_tags none s = s
  handle_selection_change all_tags (some key) s =
      if truthy key
      then (let s' = pick (find (λ o. text_eq o.id key) (options all_tags s.value s.text)) s in
          record s' { text = [] })
      else s

  unfoldable pub last_removed : Option Text → TagPicker → TagPicker
  last_removed none s = s
  last_removed (some tag) s = remove_tag tag s

  unfoldable pub step : List Text → Event → TagPicker → TagPicker
  unfolding handle_input_change handle_selection_change add_tag last_removed remove_tag
  step all_tags (input t) s = handle_input_change t s
  step all_tags (select key) s = handle_selection_change all_tags key s
  step all_tags comma s = if truthy (trim s.text) then add_tag (trim s.text) s else s
  step all_tags (enter active) s =
      if not active && truthy (trim s.text) then add_tag (trim s.text) s else s
  step all_tags backspace s = if truthy s.text then s else last_removed (get_last? s.value) s
  step all_tags blur s = add_tag s.text s
  step all_tags (remove tag) s = remove_tag tag s

  -- `FormTagPicker`: the form holds the tags as one text, and the field is given what that is split into.
  unfoldable pub held : TagPicker → TagPicker
  unfolding split_tags join_tags
  held s = record s { value = split_tags (join_tags s.value) }

  -- With each step the parent holds the tags; to hold them once more where a step calls no `onChange`
  -- changes nothing.
  unfoldable pub run : List Text → List Event → TagPicker → TagPicker
  unfolding step held
  run all_tags [] s = s
  run all_tags (e ∷ es) s = run all_tags es (held (step all_tags e s))
