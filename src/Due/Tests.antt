-- ===== src/Due/Tests.antt =====
-- Runs of what is due and of a project's status (frontend-next/src/watches.ts,
-- frontend-next/src/projects.ts, frontend-next/src/interactions.ts).
use tiny_crm.Prelude.{ℕ, ◌≡◌, refl, true, false, Option, some, Text, codes, value_from, nat_text}
use tiny_crm.Due.{text_ltb, is_due, cadence_label}

-- Moments written as milliseconds.
abbrev in_milliseconds : Text → Option ℕ
in_milliseconds s = some (value_from 0 s)

abbrev same_day : Text → Text
same_day s = s

later_day : text_ltb (codes "2026-10-03") (codes "2026-09-30") ≡ false
unfolding text_ltb
later_day = refl

read_1000 : in_milliseconds (codes "1000") ≡ some 1000
unfolding value_from
read_1000 = refl

due_now : is_due in_milliseconds same_day true (codes "1000") 259201000 ≡ true
unfolding is_due value_from
due_now = refl

every_two_weeks : cadence_label (codes "weekly") 2 ≡ codes "Every 2 weeks"
unfolding cadence_label nat_text
every_two_weeks = refl
