-- ===== src/Forms/Document/Upload.antt =====
-- Uploads (frontend-next/src/components/DocumentForm.tsx).
use mathlib.Core.Option.{some-injective, none-ne-some}
use tiny_crm.Prelude.{
  trim_idem, subst, ◌≡◌, ◌≤◌, refl, Bool, true, false, not, ◌&&◌, Option, none, some, List, [], ◌∷◌,
  All, arith, truthy, ltb, is_some, trim, Bool-cases, inl, inr,
}
use tiny_crm.Format.Tags.{IsTag, split_tags-IsTag}
use tiny_crm.Forms.Fields.{when_valid-some}
use tiny_crm.Forms.Links.{LinkPreset}
use tiny_crm.Forms.Document.{
  Values, DocumentFields, File, DocumentForm, Event, edit, select, press_submit, is_accepted,
  max_bytes, on_change, on_select, handed_on, step, run, opened, missing, with_its_file, submit,
  trimmed, checks, to_fields,
}

module _ {F : Type 0} where
  -- A file that may be uploaded.
  abbrev pub IsAllowed : Option (File F) → Type 0
  IsAllowed none = Unit
  IsAllowed (some f) = (is_accepted f.name ≡ true) × (f.size ≤ max_bytes)

  -- The file that is held may be uploaded, and nothing is said against it.
  pub record IsReady (form : DocumentForm F) : Type 0 where
    pub allowed : IsAllowed form.file
    pub one_of : (is_some form.file && is_some form.file_error) ≡ false

  on_select-IsReady :
      (f : Option (File F)) (form : DocumentForm F) → IsReady form → IsReady (on_select f form)
  unfolding on_select on_change
  on_select-IsReady none form h = h
  on_select-IsReady (some f) form h = elim (Bool-cases (is_accepted f.name)) [
    | inl e ↦ elim (Bool-cases (ltb max_bytes f.size)) [
      | inl g ↦ rw (e, g) (record { allowed = tt; one_of = refl })
      | inr g ↦ rw (e, g) (record { allowed = (e, ground (arith, g)); one_of = refl })
    ]
    | inr e ↦ rw e (record { allowed = tt; one_of = refl })
  ]

  press-IsReady :
      (with_file : Bool) (form : DocumentForm F)
      → IsReady form
      → IsReady (step with_file press_submit form)
  unfolding step
  press-IsReady with_file form h = elim (Bool-cases (missing with_file form.file)) [
    | inl e ↦ rw e (record { allowed = h.allowed; one_of = ground (arith, e) })
    | inr e ↦ rw e h
  ]

  step-IsReady :
      (with_file : Bool) (e : Event F) (form : DocumentForm F)
      → IsReady form
      → IsReady (step with_file e form)
  unfolding step
  step-IsReady with_file (edit v) form h = record { allowed = h.allowed; one_of = h.one_of }
  step-IsReady with_file (select f) form h = on_select-IsReady f form h
  step-IsReady with_file press_submit form h = press-IsReady with_file form h

  run-IsReady :
      (with_file : Bool) (es : List (Event F)) (form : DocumentForm F)
      → IsReady form
      → IsReady (run with_file es form)
  unfolding run
  run-IsReady with_file [] form h = h
  run-IsReady with_file (e ∷ es) form h =
      run-IsReady with_file es (step with_file e form) (step-IsReady with_file e form h)

  -- What is handed on: details with a title and whole tags, and a file that may be uploaded, which is not
  -- missing where one is asked for.
  pub record IsUpload (with_file : Bool) (sent : DocumentFields × Option (File F)) : Type 0 where
    pub title : truthy sent.0.title ≡ true
    pub title_kept : trim sent.0.title ≡ sent.0.title
    pub tags : All IsTag sent.0.tags
    pub file : IsAllowed sent.1
    pub there : (with_file && not (is_some sent.1)) ≡ false

  sent_by :
      (with_file : Bool) (file : Option (File F)) (o : Option DocumentFields) (v : Values)
      (sent : DocumentFields × Option (File F))
      → submit v ≡ o
      → IsAllowed file
      → missing with_file file ≡ false
      → with_its_file file o ≡ some sent
      → IsUpload with_file sent
  unfolding submit trimmed checks
  sent_by with_file file none v sent e a m h = absurd (none-ne-some _ h)
  sent_by with_file file (some fields) v sent e a m h =
      let (valid, same) = when_valid-some (checks (trimmed v)) (to_fields (trimmed v)) fields e in
      subst (IsUpload with_file) (some-injective _ _ h) (record {
        title = subst (λ x. truthy x.title ≡ true) same (unfold to_fields in valid.0);
        title_kept =
            subst (λ x. trim x.title ≡ x.title) same (unfold to_fields in trim_idem v.title);
        tags =
            subst (λ x. All IsTag x.tags) same (unfold to_fields in split_tags-IsTag (trim v.tags));
        file = a;
        there = m;
      })

  -- However the fields are edited, files are picked and the form is submitted: what is handed on has a
  -- trimmed title, whole tags, and no file but an accepted one of at most 25 MB; and where a file is
  -- asked for, there is one.
  pub handed_on-IsUpload :
      (with_file : Bool) (d : Option DocumentFields) (preset : LinkPreset) (es : List (Event F))
      (sent : DocumentFields × Option (File F))
      → handed_on with_file (run with_file es (opened d preset)) ≡ some sent
      → IsUpload with_file sent
  unfolding handed_on opened
  handed_on-IsUpload with_file d preset es sent h =
      let form = run with_file es (opened d preset) in
      let ready =
        run-IsReady with_file es (opened d preset) (record { allowed = tt; one_of = refl }) in
      elim (Bool-cases (missing with_file form.file)) [
        | inl e ↦ absurd (none-ne-some _ (rw e at h))
        | inr e ↦
            sent_by with_file form.file (submit form.values) form.values sent refl ready.allowed e
              (rw e at h)
      ]
