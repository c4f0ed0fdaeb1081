-- ===== src/TagPicker/Valid.antt =====
-- What each handler of the tag field keeps: frontend-next/src/components/TagPicker.tsx.
use tiny_crm.Prelude.{
  ◌≡◌, refl, inl, inr, Bool, true, false, not, Option, none, some, List, [], ◌∷◌, ◌++◌, map, arith,
  Text, truthy, trim, trim_idem, text_eq, filter, find, any, get_last?, All, All-append, split,
  Bool-cases, includes, codes, ◌&&◌, if◌then◌else◌, text_eq_refl, text_eq_iff,
}
use tiny_crm.TagPicker.{
  TagOption, TagPicker, Event, input, select, comma, enter, backspace, blur, remove, same, has,
  push_tag, push_tags, add_tag, remove_tag, handle_input_change, handle_selection_change, pick,
  options, last_removed, step, init_parts, is_echo,
}

-- A tag that the field holds: trimmed, and not blank.
abbrev pub IsFilled : Text → Type 0
IsFilled t = (truthy t ≡ true) × (trim t ≡ t)

module _ {ℓ} {A : Type ℓ} where
  any-append_false :
      (p : A → Bool) (x : A) (xs : List A)
      → any p xs ≡ false
      → p x ≡ false
      → any p (xs ++ x ∷ []) ≡ false
  any-append_false p x [] h k = rw k
  any-append_false p x (y ∷ ys) h k = ground (arith, any-append_false p x ys)

  any-filter-false : (p q : A → Bool) (xs : List A) → any p xs ≡ false → any p (filter q xs) ≡ false
  any-filter-false p q [] h = refl
  any-filter-false p q (y ∷ ys) h = ground (arith, any-filter-false p q ys)

  any-filter-not : (p : A → Bool) (xs : List A) → any p (filter (λ x. not (p x)) xs) ≡ false
  any-filter-not p [] = refl
  any-filter-not p (y ∷ ys) = ground (arith, any-filter-not p ys)

  pub All-filter {κ} :
      (P : A → Type κ) (q : A → Bool) (xs : List A) → All P xs → All P (filter q xs)
  All-filter P q [] h = tt
  All-filter P q (y ∷ ys) h = elim (Bool-cases (q y)) [
    | inl e ↦ rw e (h.0, All-filter P q ys h.1)
    | inr e ↦ rw e (All-filter P q ys h.1)
  ]

pasted-IsFilled : (ps : List Text) → All IsFilled (filter truthy (map trim ps))
pasted-IsFilled [] = tt
pasted-IsFilled (p ∷ ps) = elim (Bool-cases (truthy (trim p))) [
  | inl e ↦ rw e ((e, trim_idem p), pasted-IsFilled ps)
  | inr e ↦ rw e (pasted-IsFilled ps)
]

module _ (lower : Text → Text) where
  -- No two tags are the same up to case.
  abbrev pub Distinct : List Text → Type 0
  Distinct [] = Unit
  Distinct (v ∷ vs) = (any (same lower v) vs ≡ false) × Distinct vs

  pub record IsValid (s : TagPicker) : Type 0 where
    pub filled : All IsFilled s.value
    pub distinct : Distinct s.value

  Distinct-append :
      (vs : List Text) (t : Text) → Distinct vs → has lower vs t ≡ false → Distinct (vs ++ t ∷ [])
  Distinct-append [] t d h = (refl, tt)
  Distinct-append (v ∷ vs) t d h = (
    any-append_false (same lower v) t vs d.0 (ground arith),
    Distinct-append vs t d.1 (ground arith),
  )

  Distinct-filter : (q : Text → Bool) (vs : List Text) → Distinct vs → Distinct (filter q vs)
  Distinct-filter q [] d = tt
  Distinct-filter q (v ∷ vs) d = elim (Bool-cases (q v)) [
    | inl e ↦ rw e (any-filter-false (same lower v) q vs d.0, Distinct-filter q vs d.1)
    | inr e ↦ rw e (Distinct-filter q vs d.1)
  ]

  push_tag-Distinct : (vs : List Text) (t : Text) → Distinct vs → Distinct (push_tag lower vs t)
  unfolding push_tag
  push_tag-Distinct vs t d = elim (Bool-cases (has lower vs t)) [
    | inl e ↦ rw e d
    | inr e ↦ rw e (Distinct-append vs t d e)
  ]

  push_tag-IsFilled :
      (vs : List Text) (t : Text)
      → All IsFilled vs
      → IsFilled t
      → All IsFilled (push_tag lower vs t)
  unfolding push_tag
  push_tag-IsFilled vs t a f = elim (Bool-cases (has lower vs t)) [
    | inl e ↦ rw e a
    | inr e ↦ rw e (All-append IsFilled vs (t ∷ []) a (f, tt))
  ]

  push_tags-Distinct : (vs ts : List Text) → Distinct vs → Distinct (push_tags lower vs ts)
  unfolding push_tags
  push_tags-Distinct vs [] d = d
  push_tags-Distinct vs (t ∷ ts) d =
      push_tags-Distinct (push_tag lower vs t) ts (push_tag-Distinct vs t d)

  push_tags-IsFilled :
      (vs ts : List Text) → All IsFilled vs → All IsFilled ts → All IsFilled (push_tags lower vs ts)
  unfolding push_tags
  push_tags-IsFilled vs [] a b = a
  push_tags-IsFilled vs (t ∷ ts) a b =
      push_tags-IsFilled (push_tag lower vs t) ts (push_tag-IsFilled vs t a b.0) b.1

  add_tag-IsValid : (t : Text) (s : TagPicker) → IsValid s → IsValid (add_tag lower t s)
  unfolding add_tag
  add_tag-IsValid t s v = elim (Bool-cases (truthy (trim t))) [
    | inl e ↦ rw e (record {
      filled = push_tag-IsFilled s.value (trim t) v.filled (e, trim_idem t);
      distinct = push_tag-Distinct s.value (trim t) v.distinct;
    })
    | inr e ↦ rw e v
  ]

  remove_tag-IsValid : (t : Text) (s : TagPicker) → IsValid s → IsValid (remove_tag lower t s)
  unfolding remove_tag
  remove_tag-IsValid t s v = record {
    filled = All-filter IsFilled _ s.value v.filled;
    distinct = Distinct-filter _ s.value v.distinct;
  }

  -- Only `value` matters.
  IsValid-of_value :
      (s : TagPicker) (x : Text) (o : Option Text)
      → IsValid s
      → IsValid (record s { text = x; added = o })
  IsValid-of_value s x o v = record { filled = v.filled; distinct = v.distinct }

  handle_input_change-IsValid :
      (t : Text) (s : TagPicker) → IsValid s → IsValid (handle_input_change lower t s)
  unfolding handle_input_change
  handle_input_change-IsValid t s v = elim (Bool-cases (is_echo s.added t)) [
    | inl e ↦ rw e (IsValid-of_value s [] none v)
    | inr e ↦ rw e (elim (Bool-cases (includes t (codes ","))) [
      | inl c ↦ rw c (record {
        filled =
            push_tags-IsFilled s.value _ v.filled (pasted-IsFilled (init_parts (split b',' t)));
        distinct =
            push_tags-Distinct s.value (filter truthy (map trim (init_parts (split b',' t))))
              v.distinct;
      })
      | inr c ↦ rw c (IsValid-of_value s t none v)
    ])
  ]

  pick-IsValid : (o : Option TagOption) (s : TagPicker) → IsValid s → IsValid (pick lower o s)
  unfolding pick
  pick-IsValid none s v = v
  pick-IsValid (some o) s v = add_tag-IsValid o.tag _ (IsValid-of_value s s.text (some o.label) v)

  handle_selection_change-IsValid :
      (all_tags : List Text) (key : Option Text) (s : TagPicker)
      → IsValid s
      → IsValid (handle_selection_change lower all_tags key s)
  unfolding handle_selection_change
  handle_selection_change-IsValid all_tags none s v = v
  handle_selection_change-IsValid all_tags (some key) s v = elim (Bool-cases (truthy key)) [
    | inl e ↦
        let o =
          find (λ (o : TagOption). text_eq o.id key) (options lower all_tags s.value s.text) in
        rw e (IsValid-of_value (pick lower o s) [] _ (pick-IsValid o s v))
    | inr e ↦ rw e v
  ]

  last_removed-IsValid :
      (o : Option Text) (s : TagPicker) → IsValid s → IsValid (last_removed lower o s)
  unfolding last_removed
  last_removed-IsValid none s v = v
  last_removed-IsValid (some tag) s v = remove_tag-IsValid tag s v

  add_if-IsValid :
      (b : Bool) (t : Text) (s : TagPicker)
      → IsValid s
      → IsValid (if b then add_tag lower t s else s)
  add_if-IsValid true t s v = add_tag-IsValid t s v
  add_if-IsValid false t s v = v

  pub step-IsValid :
      (all_tags : List Text) (e : Event) (s : TagPicker)
      → IsValid s
      → IsValid (step lower all_tags e s)
  unfolding step
  step-IsValid all_tags (input t) s v = handle_input_change-IsValid t s v
  step-IsValid all_tags (select key) s v = handle_selection_change-IsValid all_tags key s v
  step-IsValid all_tags comma s v = add_if-IsValid (truthy (trim s.text)) (trim s.text) s v
  step-IsValid all_tags (enter active) s v =
      add_if-IsValid (not active && truthy (trim s.text)) (trim s.text) s v
  step-IsValid all_tags backspace s v = elim (Bool-cases (truthy s.text)) [
    | inl e ↦ rw e v
    | inr e ↦ rw e (last_removed-IsValid (get_last? s.value) s v)
  ]
  step-IsValid all_tags blur s v = add_tag-IsValid s.text s v
  step-IsValid all_tags (remove tag) s v = remove_tag-IsValid tag s v

  has-append_self : (vs : List Text) (t : Text) → has lower (vs ++ t ∷ []) t ≡ true
  has-append_self [] t = rw (text_eq_refl (lower t))
  has-append_self (v ∷ vs) t = ground (arith, has-append_self vs t)

  -- Adding a tag that is not blank leaves it in the list, up to case, once: the list is the old one
  -- if the tag was there, and else the old one with the trimmed tag at its end; the input is cleared.
  pub add_tag_lem :
      (t : Text) (s : TagPicker)
      → truthy (trim t) ≡ true
      → (has lower (add_tag lower t s).value (trim t) ≡ true)
        × ((add_tag lower t s).value
            ≡ (if has lower s.value (trim t) then s.value else s.value ++ trim t ∷ []))
        × ((add_tag lower t s).text ≡ [])
  unfolding add_tag
  add_tag_lem t s h = elim (Bool-cases (has lower s.value (trim t))) [
    | inl e ↦ rw (h, e) (e, refl, refl)
    | inr e ↦ rw (h, e) (has-append_self s.value (trim t), refl, refl)
  ]

  has-filter :
      (vs : List Text) (t w : Text)
      → has lower (filter (λ v. not (same lower v t)) vs) w
        ≡ (if same lower w t then false else has lower vs w)
  has-filter [] t w = ground arith
  has-filter (v ∷ vs) t w = ground (
    arith,
    text_eq_iff (lower v) (lower w),
    text_eq_iff (lower v) (lower t),
    text_eq_iff (lower w) (lower t),
    has-filter vs t w,
  )

  -- A removed tag is gone, up to case, and nothing else is: a tag is in the list afterwards exactly
  -- if it was there and differs from the removed one.
  pub has-remove_tag :
      (t w : Text) (s : TagPicker)
      → has lower (remove_tag lower t s).value w
        ≡ (if same lower w t then false else has lower s.value w)
  unfolding remove_tag
  has-remove_tag t w s = has-filter s.value t w
