-- ===== src/Dialogs/Quick.antt =====
-- The dialog of a quick note: frontend-next/src/components/QuickCapture.tsx.
pub mod Undo
mod Tests
use tiny_crm.Prelude.{
  ℕ, ◌+◌, Bool, true, false, ◌&&◌, ◌||◌, not, Option, none, some, List, [], ◌∷◌, ◌++◌, Text,
  text_eq, truthy, trim, filter, if◌then◌else◌,
}
use tiny_crm.Forms.{or_null}

-- `createCapture`'s body.
pub record CaptureCreate : Type 0 where
  pub raw : Text
  pub note : Option Text

-- `QuickCaptureDialog`: its state, whether `save` is pending, and the requests of both mutations that wait
-- for an answer. The ids of `saved` stand for the captures.
pub record QuickCapture : Type 0 where
  pub is_open : Bool
  pub raw : Text
  pub note : Text
  pub note_open : Bool
  pub saved : List Text
  pub round : ℕ
  pub is_pending : Bool
  pub saving : List CaptureCreate
  pub undoing : List Text

-- The dialog opened and closed, its fields, its form, "Undo", and the answers. The requests of one mutation
-- are answered in their order.
pub data Event : Type 0 where
  open_dialog : Event
  close_dialog : Event
  set_raw : Text → Event
  set_note : Text → Event
  add_note : Event
  submit : Event
  stored : Text → Event
  refused : Event
  undo : Event
  undone : Event
  undo_refused : Event

-- `onSubmit`, with the body that `save` sends.
unfoldable pub on_submit : QuickCapture → QuickCapture
on_submit d =
    if truthy (trim d.raw) && not d.is_pending
    then record d {
      is_pending = true;
      saving = d.saving ++ record { raw = trim d.raw; note = or_null (trim d.note) } ∷ [];
    }
    else d

-- `onSuccess` of `save`.
unfoldable pub on_saved : Text → QuickCapture → QuickCapture
on_saved id d = record d {
  saved = id ∷ d.saved;
  raw = [];
  note = [];
  note_open = false;
  round = d.round + 1;
}

-- `close`, of a dialog that is to be closed: `save` is forgotten, though its request goes on.
unfoldable pub on_close : QuickCapture → QuickCapture
on_close d = record d { is_open = false; saved = []; is_pending = false }

-- The oldest request has its answer: `save` is still pending if it is of a later one.
abbrev pub has_more : List CaptureCreate → Bool
has_more [] = false
has_more (body ∷ rest) = true

abbrev pub waiting : List CaptureCreate → QuickCapture → QuickCapture
waiting rest d = record d { is_pending = d.is_pending && has_more rest; saving = rest }

abbrev pub answered : List CaptureCreate → Text → QuickCapture → QuickCapture
unfolding on_saved
answered [] id d = d
answered (body ∷ rest) id d = on_saved id (waiting rest d)

abbrev pub failed : List CaptureCreate → QuickCapture → QuickCapture
failed [] d = d
failed (body ∷ rest) d = waiting rest d

-- `undo.mutate(saved[0].id)`, of the button that stands while there is one, and its `onSuccess`.
abbrev pub undo_first : List Text → QuickCapture → QuickCapture
undo_first [] d = d
undo_first (id ∷ rest) d = record d { undoing = d.undoing ++ id ∷ [] }

abbrev pub removed : List Text → QuickCapture → QuickCapture
removed [] d = d
removed (id ∷ rest) d = record d {
  saved = filter (λ s. not (text_eq s id)) d.saved;
  undoing = rest;
}

abbrev pub kept : List Text → QuickCapture → QuickCapture
kept [] d = d
kept (id ∷ rest) d = record d { undoing = rest }

unfoldable pub step : Event → QuickCapture → QuickCapture
unfolding on_submit on_close
step open_dialog d = record d { is_open = true }
step close_dialog d = if d.is_open then on_close d else d
step (set_raw t) d = if d.is_open then record d { raw = t } else d
step (set_note t) d = if d.is_open && d.note_open then record d { note = t } else d
step add_note d = if d.is_open then record d { note_open = true } else d
step submit d = if d.is_open then on_submit d else d
step (stored id) d = answered d.saving id d
step refused d = failed d.saving d
step undo d = if d.is_open then undo_first d.saved d else d
step undone d = removed d.undoing d
step undo_refused d = kept d.undoing d

unfoldable pub run : List Event → QuickCapture → QuickCapture
unfolding step
run [] d = d
run (e ∷ es) d = run es (step e d)

abbrev pub first : QuickCapture
first = record {
  is_open = false;
  raw = [];
  note = [];
  note_open = false;
  saved = [];
  round = 0;
  is_pending = false;
  saving = [];
  undoing = [];
}
