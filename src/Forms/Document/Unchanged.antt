-- ===== src/Forms/Document/Unchanged.antt =====
-- A document whose details are opened and saved as they are (frontend-next/src/components/DocumentForm.tsx).
use tiny_crm.Prelude.{◌≡◌, ap, ◌∙◌, some, All}
use tiny_crm.Format.Tags.{IsTag, split_tags-join_tags, trim-join_tags}
use tiny_crm.Forms.{failing, when_valid}
use tiny_crm.Forms.Fields.{
  AllPass, failing_of_AllPass, IsClean, or_null-or_empty_untrimmed, trim-or_empty,
}
use tiny_crm.Forms.Links.{LinkPreset}
use tiny_crm.Forms.Document.{DocumentFields, trimmed, checks, to_fields, to_defaults, submit}

-- A document as the API stores one.
pub record IsStored (d : DocumentFields) : Type 0 where
  pub title : IsClean (some d.title)
  pub description : IsClean d.description
  pub tags : All IsTag d.tags

module _ (d : DocumentFields) (h : IsStored d) (preset : LinkPreset) where
  trimmed-to_defaults : trimmed (to_defaults (some d) preset) ≡ to_defaults (some d) preset
  unfolding trimmed to_defaults
  trimmed-to_defaults =
      rw (h.title.1, trim-or_empty d.description h.description, trim-join_tags d.tags h.tags)

  to_fields-to_defaults : to_fields (to_defaults (some d) preset) ≡ d
  unfolding to_fields to_defaults
  to_fields-to_defaults =
      rw
        (or_null-or_empty_untrimmed d.description h.description, split_tags-join_tags d.tags h.tags)

  AllPass-to_defaults : AllPass (checks (to_defaults (some d) preset))
  unfolding checks to_defaults
  AllPass-to_defaults = (h.title.0, tt)

  -- The details of a stored document that are opened and saved as they stand are sent as they were
  -- stored, whatever the form was opened from.
  pub document_unchanged : submit (to_defaults (some d) preset) ≡ some d
  unfolding submit
  document_unchanged =
      let v = to_defaults (some d) preset in
      ap (λ w. when_valid (failing (checks w)) (to_fields w)) trimmed-to_defaults
      ∙ ap (λ l. when_valid l (to_fields v)) (failing_of_AllPass (checks v) AllPass-to_defaults)
      ∙ ap some to_fields-to_defaults
