-- ===== src/Editing/Tests.antt =====
-- Runs of an edit page (frontend-next/src/useEditVersion.ts).
use tiny_crm.Prelude.{ℕ, ◌≡◌, refl, true, List, [], ◌∷◌, codes, All}
use tiny_crm.Editing.{
  Versioned, Accepted, Event, fetched, reload, other_save, press, arrive, check_version, run,
  opening,
}
use tiny_crm.Editing.Saves.{run-IsKept}

abbrev at_start : Versioned ℕ
at_start = record { version = 4; content = 10 }

-- Someone else saves while the form is open; the save is refused, the record loaded, and saved again.
abbrev two_tabs : List (Event ℕ)
two_tabs =
    fetched ∷ other_save 11 ∷ fetched ∷ press 12 ∷ arrive ∷ reload true ∷ press 13 ∷ arrive ∷ []

two_tabs_accepted :
    (run (codes "Deal") two_tabs (opening at_start)).accepted
    ≡ record {
      base = record { version = 5; content = 11 };
      replaced = record { version = 5; content = 11 };
    }
      ∷ []
unfolding run check_version
two_tabs_accepted = refl

run-IsKept_example :
    All
      (λ (a : Accepted ℕ). a.base ≡ a.replaced)
      (run (codes "Deal") two_tabs (opening at_start)).accepted
run-IsKept_example = run-IsKept (codes "Deal") two_tabs at_start
