-- ===== src/Dialogs/Tests.antt =====
-- The dialogs (frontend-next/src/components/ImportDealsDialog.tsx, CheckDialog.tsx) at an import and a find.
use tiny_crm.Prelude.{◌≡◌, refl, ℕ, none, some, [], ◌∷◌, List, Text, codes, trim, is_space}
use tiny_crm.Dialogs.{
  Event, open_dialog, close, choose, import_file, uploaded, run, step, handle_close, handle_import,
  CheckForm, found, task, check_body,
}
use tiny_crm.Dialogs.Uploads.{closed, IsImporting, run-IsImporting}

abbrev events : List (Event Text ℕ)
events =
    open_dialog
    ∷ choose (some (codes "leads.csv"))
    ∷ import_file
    ∷ import_file
    ∷ close
    ∷ uploaded 3
    ∷ []

told : (run events closed).summary ≡ some 3
unfolding run step handle_close handle_import
told = refl

run-IsImporting_example : IsImporting (run events closed)
run-IsImporting_example = run-IsImporting events

abbrev a_find : CheckForm
a_find = record { outcome = found; note = codes " "; made_as = task; title = codes "Apply " }

apply : check_body a_find ≡ record {
  outcome = found;
  note = none;
  create_deal = none;
  create_task = some (codes "Apply");
}
unfolding check_body trim is_space
apply = refl
