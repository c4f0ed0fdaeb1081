-- ===== src/Due/Status.antt =====
-- The status of a project as the days go by: `statusOf` of frontend-next/src/projects.ts.
use tiny_crm.Prelude.{sym, ℕ, ◌≤◌, ◌≡◌, refl, true, false, [], ◌∷◌, Text, arith, false-ne-true}
use tiny_crm.Due.{ProjectStatus, active, upcoming, completed, status_of, text_ltb}

-- The order in which a project takes its statuses.
abbrev pub rank : ProjectStatus → ℕ
rank upcoming = 0
rank active = 1
rank completed = 2

-- Texts compare as a linear order does: what lies before `s` lies before all that is not before `s`.
text_ltb-through : (r s t : Text) → text_ltb r s ≡ true → text_ltb t s ≡ false → text_ltb r t ≡ true
unfolding text_ltb
text_ltb-through r [] t h g = absurd (false-ne-true h)
text_ltb-through r (d ∷ s) [] h g = absurd (false-ne-true (sym g))
text_ltb-through [] (d ∷ s) (e ∷ t) h g = refl
text_ltb-through (c ∷ r) (d ∷ s) (e ∷ t) h g = ground (arith, text_ltb-through r s t)

-- As the days go by, a project goes from upcoming to active to completed and never back, whatever its
-- dates are.
pub status_of-rank :
    (start_date end_date today later : Text)
    → text_ltb later today ≡ false
    → rank (status_of start_date end_date today) ≤ rank (status_of start_date end_date later)
unfolding status_of
status_of-rank start_date end_date today later h =
    ground (arith, text_ltb-through end_date today later, text_ltb-through later start_date today)
