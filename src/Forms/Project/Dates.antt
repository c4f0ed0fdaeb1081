-- ===== src/Forms/Project/Dates.antt =====
-- What the form of a project sends (frontend-next/src/components/ProjectForm.tsx).
use tiny_crm.Prelude.{
  false-ne-true, ◌≡◌, ◌↔◌, refl, ap, ◌∙◌, subst, true, false, ◌||◌, not, Option, none, some, [],
  ◌∷◌, Text, truthy, trim, trim_idem, arith,
}
use tiny_crm.Due.{text_ltb}
use tiny_crm.Forms.{failing, when_valid, or_null, or_empty}
use tiny_crm.Forms.Fields.{
  or_null-IsClean, AllPass, when_valid-some, failing_of_AllPass, IsClean,
  or_null-or_empty_untrimmed, trim-or_empty,
}
use tiny_crm.Forms.Project.{Values, ProjectFields, trimmed, checks, to_fields, to_defaults, submit}

-- A day is given or not, but never as ''; and one that is given does not lie before the start.
abbrev pub EndsAfter : Text → Option Text → Type 0
EndsAfter start none = Unit
EndsAfter start (some end) = (truthy end ≡ true) × (text_ltb end start ≡ false)

pub record IsProject (p : ProjectFields) : Type 0 where
  pub name : IsClean (some p.name)
  pub description : IsClean p.description
  pub starts : truthy p.start_date ≡ true
  pub ends : EndsAfter p.start_date p.end_date

ends_sent :
    (start end : Text)
    → truthy start ≡ true
    → (not (truthy end) || (not (truthy start) || not (text_ltb end start))) ≡ true
    → EndsAfter start (or_null end)
ends_sent start [] s h = tt
ends_sent start (c ∷ end) s h = (refl, ground (arith, s, h))

to_fields-IsProject :
    (v : Values)
    → trim v.name ≡ v.name
    → trim v.description ≡ v.description
    → AllPass (checks v)
    → IsProject (to_fields v)
unfolding checks to_fields
to_fields-IsProject v n d (name, (start, (end, _))) = record {
  name = (name, n);
  description = or_null-IsClean v.description d;
  starts = start;
  ends = ends_sent v.start_date v.end_date start end;
}

end_kept :
    (start : Text) (end : Option Text)
    → truthy start ≡ true
    → EndsAfter start end
    → ((not (truthy (or_empty end)) || (not (truthy start) || not (text_ltb (or_empty end) start)))
        ≡ true)
      × (or_null (or_empty end) ≡ end)
end_kept start none s h = (refl, refl)
end_kept start (some []) s h = absurd (false-ne-true h.0)
end_kept start (some (c ∷ end)) s h = (ground (arith, s, h.1), refl)

to_fields-to_defaults : (p : ProjectFields) → IsProject p → to_fields (to_defaults (some p)) ≡ p
unfolding to_fields to_defaults
to_fields-to_defaults p h = rw (
  or_null-or_empty_untrimmed p.description h.description,
  (end_kept p.start_date p.end_date h.starts h.ends).1,
)

trimmed-to_defaults :
    (p : ProjectFields) → IsProject p → trimmed (to_defaults (some p)) ≡ to_defaults (some p)
unfolding trimmed to_defaults
trimmed-to_defaults p h = rw (h.name.1, trim-or_empty p.description h.description)

AllPass-to_defaults : (p : ProjectFields) → IsProject p → AllPass (checks (to_defaults (some p)))
unfolding checks to_defaults
AllPass-to_defaults p h =
    (h.name.0, (h.starts, ((end_kept p.start_date p.end_date h.starts h.ends).0, tt)))

project_unchanged : (p : ProjectFields) → IsProject p → submit (to_defaults (some p)) ≡ some p
unfolding submit
project_unchanged p h =
    let v = to_defaults (some p) in
    ap (λ w. when_valid (failing (checks w)) (to_fields w)) (trimmed-to_defaults p h)
    ∙ ap (λ l. when_valid l (to_fields v)) (failing_of_AllPass (checks v) (AllPass-to_defaults p h))
    ∙ ap some (to_fields-to_defaults p h)

submit-IsProject : (p : ProjectFields) → (v : Values) × (submit v ≡ some p) → IsProject p
unfolding submit trimmed
submit-IsProject p (v, h) =
    let (valid, same) = when_valid-some (checks (trimmed v)) (to_fields (trimmed v)) p h in
    subst IsProject same
      (to_fields-IsProject (trimmed v) (trim_idem v.name) (trim_idem v.description) valid)

-- The projects that the form can hand on are exactly those that have a name, a start, an end that is
-- not before the start if there is one, no space around the name or the description, and no empty
-- text for a description or an end.
pub IsProject-iff : (p : ProjectFields) → ((v : Values) × (submit v ≡ some p)) ↔ IsProject p
IsProject-iff p = (submit-IsProject p, λ h. (to_defaults (some p), project_unchanged p h))
