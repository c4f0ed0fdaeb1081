-- ===== src/Forms/Links.antt =====
-- The records that a document or an interaction is filed under: what a new one starts with, of
-- frontend-next/src/components/DocumentForm.tsx and InteractionForm.tsx.
use tiny_crm.Prelude.{Option, none, some, List, [], ◌∷◌, Text}

-- `DocumentPreset` and `InteractionPreset`.
pub record LinkPreset : Type 0 where
  pub contact_id : Option Text
  pub organization_id : Option Text
  pub deal_id : Option Text
  pub project_id : Option Text

-- `preset.x ? [preset.x] : []`.
abbrev pub preset_ids : Option Text → List Text
preset_ids none = []
preset_ids (some []) = []
preset_ids (some (c ∷ s)) = (c ∷ s) ∷ []
