-- ===== src/Pickers/Single.antt =====
-- The label that a record picker shows (useRecordPickerState of
-- frontend-next/src/components/RecordPickers.tsx).
use tiny_crm.Prelude.{
  ◌≡◌, refl, ap, ◌∙◌, true, Option, none, some, List, [], ◌∷◌, Text, text_eq, truthy, Bool-cases,
  inl, inr, text_eq_iff, false-ne-true,
}
use tiny_crm.Pickers.{
  PickerOption, RecordPicker, PickEvent, select, input, find_label, has_option, on_select,
  pick_step, pick_run,
}

-- The records by their ids.
module _ (name_of : Text → Text) where
  abbrev pub AreNamed : List PickerOption → Type 0
  AreNamed [] = Unit
  AreNamed (o ∷ os) = (o.label ≡ name_of o.id) × AreNamed os

  -- A choice is one of the options, and each option shows its record's name.
  abbrev pub IsOffered : PickEvent → Type 0
  IsOffered (select none options) = Unit
  IsOffered (select (some id) options) =
      (truthy id ≡ true) × (has_option id options ≡ true) × AreNamed options
  IsOffered (input t) = Unit

  abbrev pub AllOffered : List PickEvent → Type 0
  AllOffered [] = Unit
  AllOffered (e ∷ es) = IsOffered e × AllOffered es

  abbrev pub IsLabelOf : Option Text → Text → Type 0
  IsLabelOf none label = label ≡ []
  IsLabelOf (some id) label = label ≡ name_of id

  abbrev pub IsInStep : RecordPicker → Type 0
  IsInStep p = IsLabelOf p.value p.selected_label

  find_label-AreNamed :
      (id : Text) (options : List PickerOption)
      → has_option id options ≡ true
      → AreNamed options
      → find_label id options ≡ some (name_of id)
  unfolding find_label
  find_label-AreNamed id [] h n = absurd (false-ne-true h)
  find_label-AreNamed id (o ∷ os) h n = elim (Bool-cases (text_eq o.id id)) [
    | inl e ↦ rw e (ap some (n.0 ∙ ap name_of ((text_eq_iff o.id id).0 e)))
    | inr e ↦ rw e (find_label-AreNamed id os (rw e at h) n.1)
  ]

  on_select-IsInStep :
      (id : Text) (options : List PickerOption) (p : RecordPicker)
      → IsOffered (select (some id) options)
      → IsInStep (on_select (some id) options p)
  on_select-IsInStep id options p (filled, offered, named) =
      rw (filled, find_label-AreNamed id options offered named) refl

  pick_step-IsInStep :
      (e : PickEvent) (p : RecordPicker) → IsOffered e → IsInStep p → IsInStep (pick_step e p)
  unfolding pick_step
  pick_step-IsInStep (select none options) p o h = refl
  pick_step-IsInStep (select (some id) options) p o h = on_select-IsInStep id options p o
  pick_step-IsInStep (input []) p o h = refl
  pick_step-IsInStep (input (c ∷ s)) p o h = h

  -- From a picker whose label is the name of the chosen record, as long as each choice is one of the
  -- options shown and each option shows its record's name, the label and the id do not drift apart: after
  -- any run of choices and typing the label is still the name of the chosen record, and it is '' when
  -- none is chosen.
  pub pick_run-IsInStep :
      (es : List PickEvent) (p : RecordPicker)
      → AllOffered es
      → IsInStep p
      → IsInStep (pick_run es p)
  unfolding pick_run
  pick_run-IsInStep [] p o h = h
  pick_run-IsInStep (e ∷ es) p o h =
      pick_run-IsInStep es (pick_step e p) o.1 (pick_step-IsInStep e p o.0 h)
