-- ===== src/Forms/Interaction/Kept.antt =====
-- An interaction that is opened in its form and saved as it is (frontend-next/src/components/InteractionForm.tsx).
use tiny_crm.Prelude.{Digits, Digits, some, All}
use tiny_crm.Format.Tags.{IsTag}
use tiny_crm.Forms.Fields.{IsClean}
use tiny_crm.Forms.Interaction.{InteractionCreate}

-- What an interaction must be for its form to keep it; the API stores others too.
pub record IsStored (i : InteractionCreate) : Type 0 where
  pub subject : IsClean (some i.subject)
  pub notes : IsClean i.notes
  pub tags : All IsTag i.tags
