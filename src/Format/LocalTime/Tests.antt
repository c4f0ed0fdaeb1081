-- ===== src/Format/LocalTime/Tests.antt =====
-- The theorem on moments (frontend-next/src/format.ts) at one of them.
use tiny_crm.Prelude.{◌≡◌, refl, arith, ℕ, some, none, Text, codes, ◌++◌, nat_text, split}
use tiny_crm.Format.LocalTime.{
  LocalFields, to_local_date_time, from_local_date_time, local_day, end_of_local_day, number,
}
use tiny_crm.Format.LocalTime.RoundTrip.{IsLocal, moment_kept}

abbrev pub fields_at : Text → LocalFields
fields_at iso = record { year = 2026; month = 2; date = 9; hours = 7; minutes = 5 }

abbrev pub iso_at : ℕ → ℕ → ℕ → ℕ → ℕ → Text
unfolding nat_text
iso_at y m d h min = nat_text y ++ nat_text m ++ nat_text d ++ nat_text h ++ nat_text min

shown : to_local_date_time fields_at (codes "2026-03-09T06:05:30Z") ≡ codes "2026-03-09T07:05"
unfolding to_local_date_time nat_text
shown = refl

bad : from_local_date_time iso_at (codes "2026-03") ≡ none
unfolding from_local_date_time number split
bad = refl

pub fields_at-IsLocal : (iso : Text) → IsLocal (fields_at iso)
fields_at-IsLocal iso = record {
  year = omega arith;
  month = omega arith;
  date = omega arith;
  hours = omega arith;
  minutes = omega arith;
}

moment_kept_example :
    (from_local_date_time iso_at (to_local_date_time fields_at (codes "t"))
      ≡ some (iso_at 2026 3 9 7 5))
    × (end_of_local_day iso_at (local_day fields_at (codes "t")) ≡ some (iso_at 2026 3 9 23 59))
moment_kept_example = moment_kept fields_at iso_at (codes "t") (fields_at-IsLocal (codes "t"))
