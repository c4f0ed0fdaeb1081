-- ===== src/Calendar/Tests.antt =====
-- The theorems on the calendar (frontend-next/src/components/InteractionCalendar.tsx) at March 2026.
use mathlib.Core.List.{Perm}
use tiny_crm.Prelude.{
  ℕ, ◌≡◌, refl, arith, Bool, true, false, List, [], ◌∷◌, Text, codes, take, filter, value_from,
  IsSorted, sort, nat_text,
}
use tiny_crm.Calendar.{
  Interaction, items_of, by_day, add_all, add, planned_count, summary, grid_start, grid_end,
  occurred,
}
use tiny_crm.Calendar.Days.{by_day_lem, on_day}
use tiny_crm.Calendar.Grid.{IsGrid, grid_lem}

abbrev day_at : Text → Text
day_at iso = take 2 iso

abbrev time_at : Text → ℕ
unfolding value_from
time_at iso = value_from 0 iso

abbrev at : Text → Bool → Interaction
at iso done = record { id = iso; occurred_at = iso; done = done }

abbrev month : List Interaction
month = at (codes "0918") false ∷ at (codes "1009") true ∷ at (codes "0907") true ∷ []

ninth :
    items_of (by_day time_at day_at month) (codes "09")
    ≡ at (codes "0907") true ∷ at (codes "0918") false ∷ []
unfolding items_of by_day add_all add sort time_at value_from
ninth = refl

said : summary time_at 910 month ≡ codes ", 3 interactions, 1 planned"
unfolding summary nat_text planned_count time_at value_from
said = refl

by_day_lem_example :
    IsSorted (occurred time_at) (items_of (by_day time_at day_at month) (codes "09"))
    × Perm
        (items_of (by_day time_at day_at month) (codes "09"))
        (filter (on_day day_at (codes "09")) month)
by_day_lem_example = by_day_lem time_at day_at month (codes "09")

-- From day 14 to day 44, a Sunday to a Tuesday.
weeks : (grid_start 14 ≡ 8) × (grid_end 44 ≡ 49)
unfolding grid_start grid_end
weeks = (refl, refl)

grid_lem_example : IsGrid 14 44 (grid_start 14) (grid_end 44)
grid_lem_example = grid_lem 14 44 (omega arith) (omega arith)
