-- ===== src/Calendar/Days.antt =====
-- The interactions of a day (frontend-next/src/components/InteractionCalendar.tsx).
use mathlib.Core.List.{Perm}
use tiny_crm.Prelude.{
  false-ne-true, sym, ℕ, ◌≡◌, refl, ap, ◌∙◌, Bool, true, false, ◌||◌, List, [], ◌∷◌, ◌++◌, map,
  append-nil, append_assoc, Text, text_eq, text_eq_iff, any, filter, length, ltb, arith, Bool-cases,
  inl, inr, sort, by_key, IsSorted, sort-IsSorted, sort-Perm, if◌then◌else◌,
}
use tiny_crm.Calendar.{
  Interaction, Day, items_of, add, add_all, occurred, in_order, by_day, is_open, is_planned, logged,
  planned, planned_count,
}

module _ (day_key : Text → Text) where
  abbrev pub on_day : Text → Interaction → Bool
  on_day day i = text_eq (day_key i.occurred_at) day

  by_its_day :
      (i : Interaction) (d : Day) (day : Text)
      → text_eq d.day (day_key i.occurred_at) ≡ true
      → on_day day i ≡ text_eq d.day day
  by_its_day i d day e =
      ap (λ k. text_eq k day) (sym ((text_eq_iff d.day (day_key i.occurred_at)).0 e))

  later_day :
      (i : Interaction) (d : Day) (day : Text)
      → text_eq d.day (day_key i.occurred_at) ≡ false
      → text_eq d.day day ≡ true
      → on_day day i ≡ false
  later_day i d day e f = elim (Bool-cases (on_day day i)) [
    | inl g ↦ absurd (
        false-ne-true (
          sym e
          ∙ (text_eq_iff d.day (day_key i.occurred_at)).1
              ((text_eq_iff d.day day).0 f ∙ sym ((text_eq_iff (day_key i.occurred_at) day).0 g))))
    | inr g ↦ g
  ]

  items_of-add :
      (i : Interaction) (ds : List Day) (day : Text)
      → items_of (add day_key i ds) day ≡ items_of ds day ++ (if on_day day i then i ∷ [] else [])
  unfolding items_of add
  items_of-add i [] day = refl
  items_of-add i (d ∷ ds) day = elim (Bool-cases (text_eq d.day (day_key i.occurred_at))) [
    | inl e ↦ elim (Bool-cases (text_eq d.day day)) [
      | inl f ↦ rw (e, f, by_its_day i d day e, f)
      | inr f ↦ rw (e, f, by_its_day i d day e, f) (sym (append-nil (items_of ds day)))
    ]
    | inr e ↦ elim (Bool-cases (text_eq d.day day)) [
      | inl f ↦ rw (e, f, later_day i d day e f) (sym (append-nil d.items))
      | inr f ↦ rw (e, f) (items_of-add i ds day)
    ]
  ]

  items_of-add_all :
      (is : List Interaction) (ds : List Day) (day : Text)
      → items_of (add_all day_key is ds) day ≡ items_of ds day ++ filter (on_day day) is
  unfolding add_all
  items_of-add_all [] ds day = sym (append-nil (items_of ds day))
  items_of-add_all (i ∷ is) ds day =
      items_of-add_all is (add day_key i ds) day
      ∙ ap (λ l. l ++ filter (on_day day) is) (items_of-add i ds day)
      ∙ append_assoc (items_of ds day) (if on_day day i then i ∷ [] else [])
          (filter (on_day day) is)
      ∙ ap (items_of ds day ++◌) (elim (Bool-cases (on_day day i)) [ inl e ↦ rw e | inr e ↦ rw e ])

module _ (time : Text → ℕ) where
  items_of-in_order :
      (ds : List Day) (day : Text)
      → items_of (map (in_order time) ds) day ≡ sort (by_key (occurred time)) (items_of ds day)
  unfolding items_of sort
  items_of-in_order [] day = refl
  items_of-in_order (d ∷ ds) day = elim (Bool-cases (text_eq d.day day)) [
    | inl e ↦ rw e
    | inr e ↦ rw e (items_of-in_order ds day)
  ]

  module _ (day_key : Text → Text) (items : List Interaction) (day : Text) where
    by_day-items :
        items_of (by_day time day_key items) day
        ≡ sort (by_key (occurred time)) (filter (on_day day_key day) items)
    unfolding by_day items_of
    by_day-items =
        items_of-in_order (add_all day_key items []) day
        ∙ ap (sort (by_key (occurred time))) (items_of-add_all day_key items [] day)

    -- The list of a day: in the order of the moments, and nothing but the interactions that fall on it, each as
    -- often as it was fetched.
    pub by_day_lem :
        IsSorted (occurred time) (items_of (by_day time day_key items) day)
        × Perm (items_of (by_day time day_key items) day) (filter (on_day day_key day) items)
    by_day_lem = rw by_day-items (
      sort-IsSorted (occurred time) (filter (on_day day_key day) items),
      sort-Perm (by_key (occurred time)) (filter (on_day day_key day) items),
    )

  any-filter :
      (test : Interaction → Bool) (items : List Interaction)
      → any test items ≡ ltb 0 (length (filter test items))
  any-filter test [] = refl
  any-filter test (i ∷ is) = elim (Bool-cases (test i)) [
    | inl e ↦ rw e (ground arith)
    | inr e ↦ rw e (any-filter test is)
  ]

  dot_shown :
      (now : ℕ) (items : List Interaction)
      → (logged time now items || planned time now items) ≡ ltb 0 (length items)
  unfolding logged planned
  dot_shown now [] = refl
  dot_shown now (i ∷ is) = ground (arith, is_planned time now i)

  -- A day has a dot exactly if anything is on it; and the dot of a plan exactly if its text counts one.
  pub dots_lem :
      (now : ℕ) (items : List Interaction)
      → ((logged time now items || planned time now items) ≡ ltb 0 (length items))
        × (planned time now items ≡ ltb 0 (planned_count time now items))
  unfolding planned planned_count
  dots_lem now items = (dot_shown now items, any-filter (is_open time now) items)
