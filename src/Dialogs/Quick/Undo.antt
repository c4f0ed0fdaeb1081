-- ===== src/Dialogs/Quick/Undo.antt =====
-- What the quick note sends and takes back (frontend-next/src/components/QuickCapture.tsx).
use tiny_crm.Prelude.{
  sym, All-append, subst, ◌≡◌, refl, Bool, true, false, not, ◌&&◌, some, List, [], ◌∷◌, Text,
  text_eq, truthy, trim, trim_idem, filter, any, All, arith, Bool-cases, inl, inr, if◌then◌else◌,
  text_eq_refl,
}
use tiny_crm.Forms.Fields.{IsClean, or_null-IsClean}
use tiny_crm.Dialogs.Quick.{
  CaptureCreate, QuickCapture, Event, open_dialog, close_dialog, set_raw, set_note, add_note,
  submit, stored, refused, undo, undone, undo_refused, on_submit, on_saved, on_close, answered,
  failed, undo_first, removed, kept, step, run, first,
}

-- A line that may be filed: not blank, and no blank note.
pub record IsLine (body : CaptureCreate) : Type 0 where
  pub raw : IsClean (some body.raw)
  pub note : IsClean body.note

-- The ids that the server has answered with, the latest first.
abbrev pub made_by : Event → List Text → List Text
made_by (stored id) ids = id ∷ ids
made_by e ids = ids

unfoldable pub made : List Event → List Text → List Text
made [] ids = ids
made (e ∷ es) ids = made es (made_by e ids)

abbrev pub IsMade : List Text → Text → Type 0
IsMade ids t = any (λ s. text_eq s t) ids ≡ true

-- What the dialog sends may be filed, and what it takes back is of the ids that it was given.
pub record IsOwn (ids : List Text) (d : QuickCapture) : Type 0 where
  pub saved : All (IsMade ids) d.saved
  pub undoing : All (IsMade ids) d.undoing
  pub saving : All IsLine d.saving

weaken : (id : Text) (ids l : List Text) → All (IsMade ids) l → All (IsMade (id ∷ ids)) l
weaken id ids [] h = tt
weaken id ids (t ∷ l) h = (ground (arith, h.0), weaken id ids l h.1)

All-filter :
    (ids : List Text) (id : Text) (l : List Text)
    → All (IsMade ids) l
    → All (IsMade ids) (filter (λ s. not (text_eq s id)) l)
All-filter ids id [] h = tt
All-filter ids id (t ∷ l) h = elim (Bool-cases (text_eq t id)) [
  | inl e ↦ rw e (All-filter ids id l h.1)
  | inr e ↦ rw e (h.0, All-filter ids id l h.1)
]

by_test :
    (ids : List Text) (b : Bool) (v w : QuickCapture)
    → (b ≡ true → IsOwn ids v)
    → IsOwn ids w
    → IsOwn ids (if b then v else w)
by_test ids true v w h g = h refl
by_test ids false v w h g = g

module _ (ids : List Text) (d : QuickCapture) (h : IsOwn ids d) where
  submit-IsOwn : IsOwn ids (on_submit d)
  unfolding on_submit
  submit-IsOwn =
      by_test ids (truthy (trim d.raw) && not d.is_pending) _ d
        (λ e. record {
          saved = h.saved;
          undoing = h.undoing;
          saving = All-append IsLine d.saving _ h.saving (
            record {
              raw = (ground (arith, e), trim_idem d.raw);
              note = or_null-IsClean (trim d.note) (trim_idem d.note);
            },
            tt,
          );
        })
        h

  answered-IsOwn :
      (id : Text) (l : List CaptureCreate) → All IsLine l → IsOwn (id ∷ ids) (answered l id d)
  unfolding on_saved answered
  answered-IsOwn id [] g = record {
    saved = weaken id ids d.saved h.saved;
    undoing = weaken id ids d.undoing h.undoing;
    saving = h.saving;
  }
  answered-IsOwn id (body ∷ rest) g = record {
    saved = (ground (arith, text_eq_refl id), weaken id ids d.saved h.saved);
    undoing = weaken id ids d.undoing h.undoing;
    saving = g.1;
  }

  failed-IsOwn : (l : List CaptureCreate) → All IsLine l → IsOwn ids (failed l d)
  failed-IsOwn [] g = h
  failed-IsOwn (body ∷ rest) g = record { saved = h.saved; undoing = h.undoing; saving = g.1 }

  undo-IsOwn : (l : List Text) → All (IsMade ids) l → IsOwn ids (undo_first l d)
  undo-IsOwn [] g = h
  undo-IsOwn (id ∷ rest) g = record {
    saved = h.saved;
    undoing = All-append (IsMade ids) d.undoing (id ∷ []) h.undoing (g.0, tt);
    saving = h.saving;
  }

  removed-IsOwn : (l : List Text) → All (IsMade ids) l → IsOwn ids (removed l d)
  removed-IsOwn [] g = h
  removed-IsOwn (id ∷ rest) g = record {
    saved = All-filter ids id d.saved h.saved;
    undoing = g.1;
    saving = h.saving;
  }

  kept-IsOwn : (l : List Text) → All (IsMade ids) l → IsOwn ids (kept l d)
  kept-IsOwn [] g = h
  kept-IsOwn (id ∷ rest) g = record { saved = h.saved; undoing = g.1; saving = h.saving }

  -- The fields that `IsOwn` does not read.
  same-IsOwn :
      (e : QuickCapture)
      → e.saved ≡ d.saved
      → e.undoing ≡ d.undoing
      → e.saving ≡ d.saving
      → IsOwn ids e
  same-IsOwn e a b c = record {
    saved = subst (All (IsMade ids)) (sym a) h.saved;
    undoing = subst (All (IsMade ids)) (sym b) h.undoing;
    saving = subst (All IsLine) (sym c) h.saving;
  }

step-IsOwn :
    (e : Event) (ids : List Text) (d : QuickCapture)
    → IsOwn ids d
    → IsOwn (made_by e ids) (step e d)
unfolding step on_close
step-IsOwn open_dialog ids d h = same-IsOwn ids d h _ refl refl refl
step-IsOwn close_dialog ids d h =
    by_test ids d.is_open _ d (λ e. record { saved = tt; undoing = h.undoing; saving = h.saving }) h
step-IsOwn (set_raw t) ids d h =
    by_test ids d.is_open _ d (λ e. same-IsOwn ids d h _ refl refl refl) h
step-IsOwn (set_note t) ids d h =
    by_test ids (d.is_open && d.note_open) _ d (λ e. same-IsOwn ids d h _ refl refl refl) h
step-IsOwn add_note ids d h = by_test ids d.is_open _ d (λ e. same-IsOwn ids d h _ refl refl refl) h
step-IsOwn submit ids d h = by_test ids d.is_open _ d (λ e. submit-IsOwn ids d h) h
step-IsOwn (stored id) ids d h = answered-IsOwn ids d h id d.saving h.saving
step-IsOwn refused ids d h = failed-IsOwn ids d h d.saving h.saving
step-IsOwn undo ids d h = by_test ids d.is_open _ d (λ e. undo-IsOwn ids d h d.saved h.saved) h
step-IsOwn undone ids d h = removed-IsOwn ids d h d.undoing h.undoing
step-IsOwn undo_refused ids d h = kept-IsOwn ids d h d.undoing h.undoing

run_keeps-IsOwn :
    (es : List Event) (ids : List Text) (d : QuickCapture)
    → IsOwn ids d
    → IsOwn (made es ids) (run es d)
unfolding run made
run_keeps-IsOwn [] ids d h = h
run_keeps-IsOwn (e ∷ es) ids d h =
    run_keeps-IsOwn es (made_by e ids) (step e d) (step-IsOwn e ids d h)

-- Whatever is typed, pressed and answered: every line on its way to the inbox is trimmed and not blank,
-- with no blank note; and "Undo" takes back only captures that this dialog was given for its own lines.
pub quick-IsOwn : (es : List Event) → IsOwn (made es []) (run es first)
quick-IsOwn es = run_keeps-IsOwn es [] first (record { saved = tt; undoing = tt; saving = tt })
