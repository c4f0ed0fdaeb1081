-- ===== src/Forms/Watch/Tests.antt =====
-- A run of the form of a source (frontend-next/src/components/WatchForm.tsx), and its theorem there.
use tiny_crm.Prelude.{
  ◌≡◌, refl, true, none, some, [], codes, trim, is_space, value_from, starts_with,
}
use tiny_crm.Forms.Task.{weekly}
use tiny_crm.Forms.Watch.{Values, careers_page, trimmed, to_body, submit, is_web}
use tiny_crm.Forms.Watch.Opens.{IsSource, submit-IsSource}

-- An address that is typed without a scheme.
abbrev typed_source : Values
typed_source = record {
  name = codes "Jobs";
  url = codes "jobs.example.com ";
  kind = careers_page;
  query_note = [];
  organization_id = none;
  recurrence_rule = weekly;
  recurrence_interval = codes "2";
  active = true;
  notes = [];
}

submit-typed_source : submit typed_source ≡ some (to_body (trimmed typed_source))
unfolding submit trim is_space value_from is_web starts_with
submit-typed_source = refl

submit-IsSource_example : IsSource (to_body (trimmed typed_source))
submit-IsSource_example =
    submit-IsSource typed_source (to_body (trimmed typed_source)) submit-typed_source
