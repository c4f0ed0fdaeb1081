-- ===== src/Forms/Project/Tests.antt =====
-- The theorem on the form of a project (frontend-next/src/components/ProjectForm.tsx) at one.
use tiny_crm.Prelude.{◌≡◌, ◌↔◌, refl, none, some, codes, trim, is_space}
use tiny_crm.Due.{text_ltb}
use tiny_crm.Forms.Project.{Values, ProjectFields, submit}
use tiny_crm.Forms.Project.Dates.{IsProject, IsProject-iff}

abbrev atlas : ProjectFields
atlas = record {
  name = codes "Atlas";
  description = none;
  start_date = codes "2026-03-01";
  end_date = some (codes "2026-03-01");
}

abbrev typed : Values
typed = record {
  name = codes " Atlas";
  description = codes " ";
  start_date = codes "2026-03-01";
  end_date = codes "2026-03-01";
}

sent : submit typed ≡ some atlas
unfolding submit trim is_space text_ltb
sent = refl

refused : submit (record typed { end_date = codes "2026-02-28" }) ≡ none
unfolding submit trim is_space text_ltb
refused = refl

atlas-IsProject : IsProject atlas
atlas-IsProject = (IsProject-iff atlas).0 (typed, sent)

IsProject-iff_example : ((v : Values) × (submit v ≡ some atlas)) ↔ IsProject atlas
IsProject-iff_example = IsProject-iff atlas
