-- ===== src/Format/LocalTime/RoundTrip.antt =====
-- Moments shown in the fields of the forms and read back (frontend-next/src/format.ts).
use tiny_crm.Prelude.{
  ℕ, ◌+◌, ◌<◌, ◌≤◌, ◌≡◌, refl, true, false, some, [], ◌∷◌, ◌++◌, map, Text, split, all, is_digit,
  nat_text, value_from, Lacks, split_of_Lacks, split-append, Digits, nat_text-Digits,
  value_from-nat_text, pad_start-nat_text, arith,
}
use tiny_crm.Format.LocalTime.{
  full_year, LocalFields, number, padded, day_text, time_text, local_day, to_local_date_time,
  end_of_local_day, from_local_date_time,
}

-- A separator is no digit.
Digits-Lacks : (x : ℕ) (s : Text) → is_digit x ≡ false → Digits s → Lacks x s
Digits-Lacks x [] e h = tt
Digits-Lacks x (c ∷ s) e h = (cc (e, h.0), Digits-Lacks x s e h.1)

Lacks-append : (x : ℕ) (s t : Text) → Lacks x s → Lacks x t → Lacks x (s ++ t)
Lacks-append x [] t h g = g
Lacks-append x (c ∷ s) t h g = (h.0, Lacks-append x s t h.1 g)

pub all-Digits : (s : Text) → Digits s → all is_digit s ≡ true
all-Digits [] h = refl
all-Digits (c ∷ s) h = rw h.0 (all-Digits s h.1)

number-Digits : (s : Text) → Digits s → number s ≡ some (value_from 0 s)
unfolding number
number-Digits s h = rw (all-Digits s h)

number-nat_text : (n : ℕ) → number (nat_text n) ≡ some n
number-nat_text n = rw (number-Digits (nat_text n) (nat_text-Digits n)) (rw (value_from-nat_text n))

number-padded : (n : ℕ) → n < 100 → number (padded n) ≡ some n
number-padded n h =
    let (_, value, digits) = pad_start-nat_text n h in
    rw (number-Digits (padded n) digits) (rw value)

padded-Lacks : (x n : ℕ) → is_digit x ≡ false → n < 100 → Lacks x (padded n)
padded-Lacks x n e h = Digits-Lacks x (padded n) e (pad_start-nat_text n h).2

-- The fields of a moment from the year 100 on: two digits are enough for all but the year.
pub record IsLocal (f : LocalFields) : Type 0 where
  pub year : 100 ≤ f.year
  pub month : f.month < 12
  pub date : f.date < 32
  pub hours : f.hours < 24
  pub minutes : f.minutes < 60

day_parts :
    (f : LocalFields)
    → IsLocal f
    → split b'-' (day_text f) ≡ nat_text f.year ∷ padded (f.month + 1) ∷ padded f.date ∷ []
day_parts f h =
    rw
      (split-append b'-' (nat_text f.year) (padded (f.month + 1) ++ b'-' ∷ padded f.date)
        (Digits-Lacks b'-' (nat_text f.year) refl (nat_text-Digits f.year)))
      (rw
        (split-append b'-' (padded (f.month + 1)) (padded f.date)
          (padded-Lacks b'-' (f.month + 1) refl (omega (arith, h.month))))
        (rw (
          split_of_Lacks b'-' (padded f.date)
            (padded-Lacks b'-' f.date refl (omega (arith, h.date))))))

day_read :
    (f : LocalFields)
    → IsLocal f
    → map number (split b'-' (day_text f)) ≡ some f.year ∷ some (f.month + 1) ∷ some f.date ∷ []
day_read f h = rw (day_parts f h) (
    rw (number-nat_text f.year) (
      rw (number-padded (f.month + 1) (omega (arith, h.month)))
        (rw (number-padded f.date (omega (arith, h.date))))))

time_read :
    (f : LocalFields)
    → IsLocal f
    → map number (split b':' (time_text f)) ≡ some f.hours ∷ some f.minutes ∷ []
time_read f h =
    let hours : f.hours < 100 = omega (arith, h.hours) in
    let minutes : f.minutes < 100 = omega (arith, h.minutes) in
    rw
      (split-append b':' (padded f.hours) (padded f.minutes) (padded-Lacks b':' f.hours refl hours))
      (rw (split_of_Lacks b':' (padded f.minutes) (padded-Lacks b':' f.minutes refl minutes))
        (rw (number-padded f.hours hours) (rw (number-padded f.minutes minutes))))

day_text-Lacks : (f : LocalFields) → IsLocal f → Lacks b'T' (day_text f)
day_text-Lacks f h =
    let month_date =
      Lacks-append b'T' (padded (f.month + 1)) (b'-' ∷ padded f.date)
        (padded-Lacks b'T' (f.month + 1) refl (omega (arith, h.month)))
        (omega arith, padded-Lacks b'T' f.date refl (omega (arith, h.date))) in
    Lacks-append b'T' (nat_text f.year) (b'-' ∷ (padded (f.month + 1) ++ b'-' ∷ padded f.date))
      (Digits-Lacks b'T' (nat_text f.year) refl (nat_text-Digits f.year)) (omega arith, month_date)

time_text-Lacks : (f : LocalFields) → IsLocal f → Lacks b'T' (time_text f)
time_text-Lacks f h =
    Lacks-append b'T' (padded f.hours) (b':' ∷ padded f.minutes)
      (padded-Lacks b'T' f.hours refl (omega (arith, h.hours)))
      (omega arith, padded-Lacks b'T' f.minutes refl (omega (arith, h.minutes)))

two_parts :
    (f : LocalFields)
    → IsLocal f
    → split b'T' (day_text f ++ b'T' ∷ time_text f) ≡ day_text f ∷ time_text f ∷ []
two_parts f h =
    rw (split-append b'T' (day_text f) (time_text f) (day_text-Lacks f h))
      (rw (split_of_Lacks b'T' (time_text f) (time_text-Lacks f h)))

full_year_same : (y : ℕ) → 100 ≤ y → full_year y ≡ y
full_year_same y h = ground (arith, h)

module _ (fields_of : Text → LocalFields) (iso_of : ℕ → ℕ → ℕ → ℕ → ℕ → Text) (iso : Text)
    (h : IsLocal (fields_of iso)) where
  -- If the fields of a moment are of the year 100 or a later one, with a month, a day of the month, an hour
  -- and a minute in range: written into a date-time field they are all read back, to the minute, for
  -- the `Date` that is made of them; and the deadline of the day it falls on is made of 23:59 of that
  -- year, month and day.
  pub moment_kept :
      (from_local_date_time iso_of (to_local_date_time fields_of iso)
        ≡ some (
            iso_of
              (fields_of iso).year
              ((fields_of iso).month + 1)
              (fields_of iso).date
              (fields_of iso).hours
              (fields_of iso).minutes))
      × (end_of_local_day iso_of (local_day fields_of iso)
          ≡ some
              (iso_of (fields_of iso).year ((fields_of iso).month + 1) (fields_of iso).date 23 59))
  unfolding from_local_date_time to_local_date_time end_of_local_day local_day
  moment_kept = (
    rw (two_parts (fields_of iso) h) (
        rw
          (
            day_read (fields_of iso) h,
            time_read (fields_of iso) h,
            full_year_same (fields_of iso).year h.year,
          )
          refl),
    rw (day_read (fields_of iso) h, full_year_same (fields_of iso).year h.year) refl,
  )
