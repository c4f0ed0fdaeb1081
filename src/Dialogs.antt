-- ===== src/Dialogs.antt =====
-- Dialogs: the imports of deals and of contacts (frontend-next/src/components/ImportDealsDialog.tsx,
-- ImportVCardDialog.tsx), which differ in the request and in what is told of it, and the sweep of a source
-- (frontend-next/src/components/CheckDialog.tsx).
pub mod Uploads
pub mod Sweep
pub mod Quick
mod Tests
use tiny_crm.Prelude.{
  ◌∷◌, List, ℕ, ◌+◌, ◌-◌, Bool, true, false, ◌&&◌, ◌||◌, not, Option, none, some, List, [], ◌∷◌,
  Text, truthy, trim, ltb, is_some, if◌then◌else◌,
}
use tiny_crm.Forms.{or_null}

-- The state of the dialog, and how many calls of `handleImport` wait for their upload and for the
-- queries to be refreshed.
pub record ImportDialog (F : Type 0) (S : Type 0) : Type 0 where
  pub is_open : Bool
  pub file : Option F
  pub is_uploading : Bool
  pub summary : Option S
  pub error : Option Text
  pub uploads : ℕ
  pub refreshes : ℕ

-- The button that opens it, a way out of it, the input, the form, and what comes of an upload.
pub data Event (F : Type 0) (S : Type 0) : Type 0 where
  open_dialog : Event F S
  close : Event F S
  choose : Option F → Event F S
  import_file : Event F S
  uploaded : S → Event F S
  upload_failed : Text → Event F S
  refreshed : Event F S
  refresh_failed : Text → Event F S

module _ {F S : Type 0} where
  -- `reset`.
  abbrev pub reset : ImportDialog F S → ImportDialog F S
  reset d = record d { file = none; is_uploading = false; summary = none; error = none }

  -- `handleClose`.
  unfoldable pub handle_close : ImportDialog F S → ImportDialog F S
  handle_close d = if d.is_uploading then d else record (reset d) { is_open = false }

  -- The form stands in the dialog until there is a summary.
  abbrev pub has_form : ImportDialog F S → Bool
  has_form d = d.is_open && not (is_some d.summary)

  -- `handleImport`, up to its first wait.
  unfoldable pub handle_import : ImportDialog F S → ImportDialog F S
  handle_import d =
      if not (is_some d.file) || d.is_uploading
      then d
      else record d { is_uploading = true; error = none; uploads = d.uploads + 1 }

  unfoldable pub step : Event F S → ImportDialog F S → ImportDialog F S
  unfolding handle_close handle_import
  step open_dialog d = record d { is_open = true }
  step close d = if d.is_open then handle_close d else d
  step (choose f) d = if has_form d && not d.is_uploading then record d { file = f } else d
  step import_file d = if has_form d then handle_import d else d
  step (uploaded s) d =
      if ltb 0 d.uploads
      then record d { summary = some s; uploads = d.uploads - 1; refreshes = d.refreshes + 1 }
      else d
  step (upload_failed e) d =
      if ltb 0 d.uploads
      then record d { error = some e; is_uploading = false; uploads = d.uploads - 1 }
      else d
  step refreshed d =
      if ltb 0 d.refreshes
      then record d { is_uploading = false; refreshes = d.refreshes - 1 }
      else d
  step (refresh_failed e) d =
      if ltb 0 d.refreshes
      then record d { error = some e; is_uploading = false; refreshes = d.refreshes - 1 }
      else d

  unfoldable pub run : List (Event F S) → ImportDialog F S → ImportDialog F S
  unfolding step
  run [] d = d
  run (e ∷ es) d = run es (step e d)

-- `CheckForm`: its fields.
pub data Outcome : Type 0 where
  nothing found : Outcome

pub data Made : Type 0 where
  deal task : Made

pub record CheckForm : Type 0 where
  pub outcome : Outcome
  pub note : Text
  pub made_as : Made
  pub title : Text

abbrev pub is_found : Outcome → Bool
is_found nothing = false
is_found found = true

abbrev pub is_deal : Made → Bool
is_deal deal = true
is_deal task = false

-- `logCheck`'s body: what is made is sent as its title.
pub record CheckCreate : Type 0 where
  pub outcome : Outcome
  pub note : Option Text
  pub create_deal : Option Text
  pub create_task : Option Text

unfoldable pub check_body : CheckForm → CheckCreate
check_body f = record {
  outcome = f.outcome;
  note = or_null (trim f.note);
  create_deal =
      if is_found f.outcome && (is_deal f.made_as && truthy (trim f.title))
      then some (trim f.title)
      else none;
  create_task =
      if is_found f.outcome && (not (is_deal f.made_as) && truthy (trim f.title))
      then some (trim f.title)
      else none;
}
