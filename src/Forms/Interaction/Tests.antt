-- ===== src/Forms/Interaction/Tests.antt =====
-- The theorem on the form of an interaction (frontend-next/src/components/InteractionForm.tsx) at a call.
use tiny_crm.Prelude.{ℕ, true, some, none, [], ◌∷◌, Text, codes}
use tiny_crm.Format.LocalTime.{LocalFields}
use tiny_crm.Forms.Links.{LinkPreset}
use tiny_crm.Forms.Interaction.{InteractionCreate, call}

abbrev fields_at : Text → LocalFields
fields_at iso = record { year = 2026; month = 2; date = 9; hours = 7; minutes = 5 }

abbrev iso_at : ℕ → ℕ → ℕ → ℕ → ℕ → Text
iso_at y m d h min = y ∷ m ∷ d ∷ h ∷ min ∷ []

abbrev preset : LinkPreset
preset = record { contact_id = none; organization_id = none; deal_id = none; project_id = none }

abbrev called : InteractionCreate
called = record {
  kind = call;
  subject = codes "Call";
  notes = none;
  occurred_at = 2026 ∷ 3 ∷ 9 ∷ 7 ∷ 5 ∷ 30 ∷ [];
  duration_minutes = some 20;
  done = true;
  tags = [];
  contact_ids = codes "c1" ∷ [];
  organization_ids = [];
  deal_ids = [];
  project_ids = [];
}
