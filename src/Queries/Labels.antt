-- ===== src/Queries/Labels.antt =====
-- The fixed vocabularies and their labels: frontend-next/src/contacts.ts, interactions.ts, watches.ts,
-- tasks.ts and search.ts.
use tiny_crm.Prelude.{
  Bool, true, false, Option, none, some, List, [], ◌∷◌, Text, codes, text_eq, if◌then◌else◌,
}
use Prim.Native.String.{String}

-- `{ value, label }`.
pub record Labelled : Type 0 where
  pub value : Text
  pub label : Text

abbrev labelled : String → String → Labelled
labelled value label = record { value = codes value; label = codes label }

abbrev pub lifecycle_options : List Labelled
lifecycle_options =
    labelled "lead" "Lead"
    ∷ labelled "prospect" "Prospect"
    ∷ labelled "customer" "Customer"
    ∷ labelled "former" "Former"
    ∷ []

abbrev pub relation_options : List Labelled
relation_options =
    labelled "customer" "Customer"
    ∷ labelled "partner" "Partner"
    ∷ labelled "subcontracting_target" "Subcontracting target"
    ∷ labelled "contracting_authority" "Contracting authority"
    ∷ []

abbrev pub source_options : List Labelled
source_options =
    labelled "referral" "Referral"
    ∷ labelled "inbound" "Inbound"
    ∷ labelled "outbound" "Outbound"
    ∷ labelled "event" "Event"
    ∷ labelled "job_board" "Job board"
    ∷ labelled "tender_portal" "Tender portal"
    ∷ labelled "other" "Other"
    ∷ []

abbrev pub priority_options : List Labelled
priority_options = labelled "0" "Low" ∷ labelled "1" "Medium" ∷ labelled "2" "High" ∷ []

abbrev pub interaction_kinds : List Labelled
interaction_kinds =
    labelled "call" "Call"
    ∷ labelled "meeting" "Meeting"
    ∷ labelled "event" "Event"
    ∷ labelled "email" "Mail"
    ∷ labelled "note" "Note"
    ∷ labelled "other" "Other"
    ∷ []

pub record WatchKind : Type 0 where
  pub value : Text
  pub label : Text
  pub plural : Text

abbrev watch_kind : String → String → String → WatchKind
watch_kind value label plural = record {
  value = codes value;
  label = codes label;
  plural = codes plural;
}

abbrev pub watch_kinds : List WatchKind
watch_kinds =
    watch_kind "job_board" "Job board" "Job boards"
    ∷ watch_kind "careers_page" "Careers page" "Careers pages"
    ∷ watch_kind "tender_portal" "Tender portal" "Tender portals"
    ∷ watch_kind "other" "Other" "Other"
    ∷ []

-- `options.find((o) => o.value === value)?.label ?? or`.
unfoldable pub find_label : List Labelled → Text → Text → Text
find_label [] value or = or
find_label (o ∷ os) value or =
    let rest = find_label os value or in if text_eq o.value value then o.label else rest

abbrev pub label_of : List Labelled → Option Text → Text
label_of options none = []
label_of options (some value) = find_label options value value

abbrev pub interaction_kind_label : Text → Text
interaction_kind_label kind = find_label interaction_kinds kind kind

unfoldable pub find_watch_label : List WatchKind → Text → Text
find_watch_label [] kind = kind
find_watch_label (o ∷ os) kind =
    let rest = find_watch_label os kind in if text_eq o.value kind then o.label else rest

abbrev pub watch_kind_label : Text → Text
watch_kind_label kind = find_watch_label watch_kinds kind

-- `freelancerAnswer`.
pub data AnswerTone : Type 0 where
  success accent : AnswerTone

pub record FreelancerAnswer : Type 0 where
  pub label : Text
  pub tone : Option AnswerTone

abbrev pub freelancer_answer : Option Bool → FreelancerAnswer
freelancer_answer (some true) = record {
  label = codes "Works with freelancers";
  tone = some success;
}
freelancer_answer (some false) = record { label = codes "Does not use freelancers"; tone = none }
freelancer_answer none = record {
  label = codes "Never asked about freelancers";
  tone = some accent;
}
