-- ===== src/Forms/Document/Tests.antt =====
-- The form of a document (frontend-next/src/components/DocumentForm.tsx) at an upload.
use tiny_crm.Prelude.{
  ◌≡◌, refl, ℕ, true, none, some, List, [], ◌∷◌, Text, codes, trim, is_space, split,
}
use tiny_crm.Forms.Links.{LinkPreset}
use tiny_crm.Forms.Document.{
  DocumentFields, File, Event, select, press_submit, opened, run, on_select, on_change, is_accepted,
  handed_on, submit, to_defaults, without_extension,
}
use tiny_crm.Forms.Document.Upload.{IsUpload, handed_on-IsUpload}
use tiny_crm.Forms.Document.Unchanged.{IsStored}

abbrev preset : LinkPreset
preset = record {
  contact_id = none;
  organization_id = none;
  deal_id = some (codes "d1");
  project_id = some [];
}

abbrev fields : Text → DocumentFields
fields title = record {
  title = title;
  description = none;
  tags = [];
  contact_ids = [];
  organization_ids = [];
  deal_ids = codes "d1" ∷ [];
  project_ids = [];
}

abbrev offer : File ℕ
offer = record { name = codes "Offer v1.2.PDF"; size = 1024; content = 0 }

abbrev photo : File ℕ
photo = record { name = codes "photo.png"; size = 10; content = 1 }

abbrev events : List (Event ℕ)
events = select (some photo) ∷ press_submit ∷ select (some offer) ∷ select none ∷ []

uploaded :
    handed_on true (run true events (opened none preset))
    ≡ some (fields (codes "Offer v1.2"), some offer)
unfolding handed_on run opened on_select on_change is_accepted without_extension submit trim
    is_space split to_defaults
uploaded = refl

handed_on-IsUpload_example : IsUpload true (fields (codes "Offer v1.2"), some offer)
handed_on-IsUpload_example =
    handed_on-IsUpload true none preset events (fields (codes "Offer v1.2"), some offer) uploaded

offer-IsStored : IsStored (fields (codes "Offer"))
unfolding trim is_space
offer-IsStored = record { title = (refl, refl); description = tt; tags = tt }
