-- ===== src/Calendar/Grid.antt =====
-- The visible weeks of a month (frontend-next/src/components/InteractionCalendar.tsx).
use tiny_crm.Prelude.{◌+◌, ◌-◌, ◌%◌, ◌≤◌, ◌<◌, ◌≡◌, arith}
use tiny_crm.Calendar.{CalendarDate, weekday, grid_start, grid_end}

-- The weeks that are fetched: whole ones from a Monday to a Sunday, with every day of the month and no
-- week more than it takes.
pub record IsGrid (first last start end : CalendarDate) : Type 0 where
  pub monday : weekday start ≡ 1
  pub sunday : weekday end ≡ 0
  pub weeks : (end + 1 - start) % 7 ≡ 0
  pub from_first : start ≤ first
  pub to_last : last ≤ end
  pub first_week : first < start + 7
  pub last_week : end < last + 7

-- The grid of a month, after the first week that is counted, is whole weeks from a Monday to a Sunday: all of the
-- month, and no week without a day of it.
pub grid_lem :
    (first last : CalendarDate)
    → 7 ≤ first
    → first ≤ last
    → IsGrid first last (grid_start first) (grid_end last)
unfolding grid_start grid_end
grid_lem first last h g = record {
  monday = omega (arith, h);
  sunday = omega arith;
  weeks = omega (arith, h, g);
  from_first = omega arith;
  to_last = omega arith;
  first_week = omega arith;
  last_week = omega arith;
}
