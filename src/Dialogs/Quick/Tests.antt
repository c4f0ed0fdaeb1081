-- ===== src/Dialogs/Quick/Tests.antt =====
-- Quick notes (frontend-next/src/components/QuickCapture.tsx).
use tiny_crm.Prelude.{◌≡◌, refl, [], ◌∷◌, List, codes, trim, is_space}
use tiny_crm.Dialogs.Quick.{
  Event, open_dialog, set_raw, submit, stored, undo, undone, first, run, step, on_submit, on_saved,
}
use tiny_crm.Dialogs.Quick.Undo.{IsOwn, made, quick-IsOwn}

abbrev events : List Event
events =
    open_dialog
    ∷ set_raw (codes "Jane ")
    ∷ submit
    ∷ submit
    ∷ stored (codes "k1")
    ∷ set_raw (codes "Joe")
    ∷ submit
    ∷ stored (codes "k2")
    ∷ undo
    ∷ undone
    ∷ []

one_left : (run events first).saved ≡ codes "k1" ∷ []
unfolding run step on_submit on_saved trim is_space
one_left = refl

quick-IsOwn_example : IsOwn (made events []) (run events first)
quick-IsOwn_example = quick-IsOwn events

-- What is typed while a line is on its way is cleared with its answer.
typed_ahead :
    (run
      (open_dialog
        ∷ set_raw (codes "Jane")
        ∷ submit
        ∷ set_raw (codes "Joe")
        ∷ stored (codes "k1")
        ∷ [])
      first).raw
    ≡ []
unfolding run step on_submit on_saved trim is_space
typed_ahead = refl
