-- ===== src/TagPicker/Held.antt =====
-- What holds of the tag field of a form after any events: frontend-next/src/components/TagPicker.tsx.
use tiny_crm.Prelude.{
  ◌≡◌, inl, inr, Bool, true, false, not, Option, none, some, List, [], ◌∷◌, map, arith, Text,
  truthy, trim, text_eq, find, get_last?, All, All-append, split, Bool-cases, includes, starts_with,
  codes, ◌&&◌, if◌then◌else◌, Lacks, Lacks-trim, Lacks-trim_start, split-Lacks,
}
use tiny_crm.Format.Tags.{IsTag, split_tags-join_tags}
use tiny_crm.TagPicker.{
  new_option, TagOption, TagPicker, Event, input, select, comma, enter, backspace, blur, remove,
  has, push_tag, push_tags, add_tag, remove_tag, handle_input_change, handle_selection_change, pick,
  existing_option, available_existing, matching_existing, options, last_removed, step, held, run,
  init_parts, last_part, is_echo,
}
use tiny_crm.TagPicker.Valid.{IsFilled, IsValid, All-filter, step-IsValid}

abbrev pub IsFree : Text → Type 0
IsFree t = Lacks b',' t

-- Of the option that is found, if one is.
OptionFree : Option TagOption → Type 0
OptionFree none = Unit
OptionFree (some o) = IsFree o.tag

find-IsFree :
    (p : TagOption → Bool) (os : List TagOption)
    → All (λ o. IsFree o.tag) os
    → OptionFree (find p os)
unfolding OptionFree
find-IsFree p [] h = tt
find-IsFree p (o ∷ os) h = elim (Bool-cases (p o)) [
  | inl e ↦ rw e h.0
  | inr e ↦ rw e (find-IsFree p os h.1)
]

existing_options-IsFree :
    (ts : List Text) → All IsFree ts → All (λ o. IsFree o.tag) (map existing_option ts)
existing_options-IsFree [] h = tt
existing_options-IsFree (t ∷ ts) h = (h.0, existing_options-IsFree ts h.1)

-- A text in which no comma is found.
includes-IsFree : (t : Text) → includes t (codes ",") ≡ false → IsFree t
unfolding includes starts_with
includes-IsFree [] h = tt
includes-IsFree (c ∷ t) h = (ground (arith, h), includes-IsFree t (ground (arith, h)))

init_parts-IsFree : (ps : List Text) → All IsFree ps → All IsFree (init_parts ps)
init_parts-IsFree [] h = tt
init_parts-IsFree (p ∷ []) h = tt
init_parts-IsFree (p ∷ q ∷ ps) h = (h.0, init_parts-IsFree (q ∷ ps) h.1)

last_part-IsFree : (ps : List Text) → All IsFree ps → IsFree (last_part ps)
last_part-IsFree [] h = tt
last_part-IsFree (p ∷ []) h = h.0
last_part-IsFree (p ∷ q ∷ ps) h = last_part-IsFree (q ∷ ps) h.1

trimmed-IsFree : (ps : List Text) → All IsFree ps → All IsFree (map trim ps)
trimmed-IsFree [] h = tt
trimmed-IsFree (p ∷ ps) h = (Lacks-trim b',' p h.0, trimmed-IsFree ps h.1)

All-IsTag : (vs : List Text) → All IsFilled vs → All IsFree vs → All IsTag vs
All-IsTag [] f c = tt
All-IsTag (v ∷ vs) f c =
    (record { filled = f.0.0; trimmed = f.0.1; comma_free = c.0 }, All-IsTag vs f.1 c.1)

-- Neither the tags nor what is being typed has a comma.
pub record HasNoComma (s : TagPicker) : Type 0 where
  pub of_value : All IsFree s.value
  pub of_text : IsFree s.text

module _ (lower : Text → Text) where
  push_tag-IsFree :
      (vs : List Text) (t : Text) → All IsFree vs → IsFree t → All IsFree (push_tag lower vs t)
  unfolding push_tag
  push_tag-IsFree vs t h f = elim (Bool-cases (has lower vs t)) [
    | inl e ↦ rw e h
    | inr e ↦ rw e (All-append IsFree vs (t ∷ []) h (f, tt))
  ]

  push_tags-IsFree :
      (vs ts : List Text) → All IsFree vs → All IsFree ts → All IsFree (push_tags lower vs ts)
  unfolding push_tags
  push_tags-IsFree vs [] h g = h
  push_tags-IsFree vs (t ∷ ts) h g =
      push_tags-IsFree (push_tag lower vs t) ts (push_tag-IsFree vs t h g.0) g.1

  add_tag-HasNoComma :
      (t : Text) (s : TagPicker) → IsFree t → HasNoComma s → HasNoComma (add_tag lower t s)
  unfolding add_tag
  add_tag-HasNoComma t s f h = elim (Bool-cases (truthy (trim t))) [
    | inl e ↦ rw e (record {
      of_value = push_tag-IsFree s.value (trim t) h.of_value (Lacks-trim b',' t f);
      of_text = tt;
    })
    | inr e ↦ rw e h
  ]

  remove_tag-HasNoComma :
      (t : Text) (s : TagPicker) → HasNoComma s → HasNoComma (remove_tag lower t s)
  unfolding remove_tag
  remove_tag-HasNoComma t s h = record {
    of_value = All-filter IsFree _ s.value h.of_value;
    of_text = h.of_text;
  }

  handle_input_change-HasNoComma :
      (t : Text) (s : TagPicker) → HasNoComma s → HasNoComma (handle_input_change lower t s)
  unfolding handle_input_change
  handle_input_change-HasNoComma t s h = elim (Bool-cases (is_echo s.added t)) [
    | inl e ↦ rw e (record { of_value = h.of_value; of_text = tt })
    | inr e ↦ rw e (elim (Bool-cases (includes t (codes ","))) [
      | inl c ↦
          let parts = split-Lacks b',' t in
          rw c (record {
            of_value = push_tags-IsFree s.value _ h.of_value (
                All-filter IsFree truthy _
                  (trimmed-IsFree _ (init_parts-IsFree (split b',' t) parts)));
            of_text = Lacks-trim_start b',' _ (last_part-IsFree (split b',' t) parts);
          })
      | inr c ↦ rw c (record { of_value = h.of_value; of_text = includes-IsFree t c })
    ])
  ]

  new_option-IsFree :
      (b : Bool) (t : Text)
      → IsFree t
      → All (λ o. IsFree o.tag) (if b then new_option t ∷ [] else [])
  new_option-IsFree true t f = (f, tt)
  new_option-IsFree false t f = tt

  matching-IsFree :
      (all_tags value : List Text) (text : Text)
      → All IsFree all_tags
      → All IsFree (matching_existing lower all_tags value text)
  unfolding matching_existing available_existing
  matching-IsFree all_tags value text h = elim (Bool-cases (truthy (trim text))) [
    | inl e ↦ rw e (All-filter IsFree _ _ (All-filter IsFree _ all_tags h))
    | inr e ↦ rw e (All-filter IsFree _ all_tags h)
  ]

  options-IsFree :
      (all_tags value : List Text) (text : Text)
      → All IsFree all_tags
      → IsFree text
      → All (λ o. IsFree o.tag) (options lower all_tags value text)
  unfolding options
  options-IsFree all_tags value text h f =
      All-append (λ o. IsFree o.tag) _ _
        (existing_options-IsFree _ (matching-IsFree all_tags value text h))
        (new_option-IsFree _ (trim text) (Lacks-trim b',' text f))

  pick-HasNoComma :
      (o : Option TagOption) (s : TagPicker)
      → OptionFree o
      → HasNoComma s
      → HasNoComma (pick lower o s)
  unfolding pick OptionFree
  pick-HasNoComma none s f h = h
  pick-HasNoComma (some o) s f h =
      add_tag-HasNoComma o.tag _ f (record { of_value = h.of_value; of_text = h.of_text })

  handle_selection_change-HasNoComma :
      (all_tags : List Text) (key : Option Text) (s : TagPicker)
      → All IsFree all_tags
      → HasNoComma s
      → HasNoComma (handle_selection_change lower all_tags key s)
  unfolding handle_selection_change
  handle_selection_change-HasNoComma all_tags none s a h = h
  handle_selection_change-HasNoComma all_tags (some key) s a h = elim (Bool-cases (truthy key)) [
    | inl e ↦
        let free = options-IsFree all_tags s.value s.text a h.of_text in
        let picked =
          pick-HasNoComma _ s (find-IsFree (λ (o : TagOption). text_eq o.id key) _ free) h in
        rw e (record { of_value = picked.of_value; of_text = tt })
    | inr e ↦ rw e h
  ]

  last_removed-HasNoComma :
      (o : Option Text) (s : TagPicker) → HasNoComma s → HasNoComma (last_removed lower o s)
  unfolding last_removed
  last_removed-HasNoComma none s h = h
  last_removed-HasNoComma (some tag) s h = remove_tag-HasNoComma tag s h

  add_if-HasNoComma :
      (b : Bool) (s : TagPicker)
      → HasNoComma s
      → HasNoComma (if b then add_tag lower (trim s.text) s else s)
  add_if-HasNoComma true s h =
      add_tag-HasNoComma (trim s.text) s (Lacks-trim b',' s.text h.of_text) h
  add_if-HasNoComma false s h = h

  step-HasNoComma :
      (all_tags : List Text) (e : Event) (s : TagPicker)
      → All IsFree all_tags
      → HasNoComma s
      → HasNoComma (step lower all_tags e s)
  unfolding step
  step-HasNoComma all_tags (input t) s a h = handle_input_change-HasNoComma t s h
  step-HasNoComma all_tags (select key) s a h =
      handle_selection_change-HasNoComma all_tags key s a h
  step-HasNoComma all_tags comma s a h = add_if-HasNoComma (truthy (trim s.text)) s h
  step-HasNoComma all_tags (enter active) s a h =
      add_if-HasNoComma (not active && truthy (trim s.text)) s h
  step-HasNoComma all_tags backspace s a h = elim (Bool-cases (truthy s.text)) [
    | inl e ↦ rw e h
    | inr e ↦ rw e (last_removed-HasNoComma (get_last? s.value) s h)
  ]
  step-HasNoComma all_tags blur s a h = add_tag-HasNoComma s.text s h.of_text h
  step-HasNoComma all_tags (remove tag) s a h = remove_tag-HasNoComma tag s h

  -- The form gives the field back what it was handed.
  held_same : (s : TagPicker) → IsValid lower s → HasNoComma s → held lower s ≡ s
  unfolding held
  held_same s v h = rw (split_tags-join_tags s.value (All-IsTag s.value v.filled h.of_value))

  -- Whatever the user does, in a form that holds the tags as one text: if no tag that the server offers has
  -- a comma, the field that starts with trimmed tags that are not blank, differ up to case and have
  -- no comma, with none in its input, holds such tags.
  pub run-IsHeld :
      (all_tags : List Text) (es : List Event) (s : TagPicker)
      → All IsFree all_tags
      → IsValid lower s
      → HasNoComma s
      → IsValid lower (run lower all_tags es s) × HasNoComma (run lower all_tags es s)
  unfolding run
  run-IsHeld all_tags [] s a v h = (v, h)
  run-IsHeld all_tags (e ∷ es) s a v h =
      let valid = step-IsValid lower all_tags e s v in
      let free = step-HasNoComma all_tags e s a h in
      let same = held_same (step lower all_tags e s) valid free in
      run-IsHeld all_tags es (held lower (step lower all_tags e s)) a (rw same valid) (rw same free)
