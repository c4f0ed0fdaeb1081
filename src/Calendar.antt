-- ===== src/Calendar.antt =====
-- The month of interactions: frontend-next/src/components/InteractionCalendar.tsx. A `Map` is its entries in
-- the order of insertion. `day_key` is the day that a moment falls on in the briefing's zone, and `time` is
-- `Date.parse`, of a moment as the API sends it.
pub mod Days
pub mod Grid
mod Tests
use tiny_crm.Prelude.{
  ℕ, ◌+◌, ◌-◌, ◌%◌, Bool, true, false, ◌&&◌, ◌||◌, not, Option, none, some, List, [], ◌∷◌, ◌++◌,
  map, Text, codes, text_eq, any, filter, length, ltb, nat_text, sort, by_key, ◌==◌, if◌then◌else◌,
}

-- What the calendar reads of an `InteractionRead`.
pub record Interaction : Type 0 where
  pub id : Text
  pub occurred_at : Text
  pub done : Bool

-- An entry of `byDay`.
pub record Day : Type 0 where
  pub day : Text
  pub items : List Interaction

-- `byDay.get(day) ?? []`.
unfoldable pub items_of : List Day → Text → List Interaction
items_of [] day = []
items_of (d ∷ ds) day = let rest = items_of ds day in if text_eq d.day day then d.items else rest

module _ (day_key : Text → Text) where
  -- One round of the loop: pushed to the list of its day, or a list of its own.
  unfoldable pub add : Interaction → List Day → List Day
  add i [] = record { day = day_key i.occurred_at; items = i ∷ [] } ∷ []
  add i (d ∷ ds) =
      let later = add i ds in
      if text_eq d.day (day_key i.occurred_at)
      then record d { items = d.items ++ i ∷ [] } ∷ ds
      else d ∷ later

  unfoldable pub add_all : List Interaction → List Day → List Day
  unfolding add
  add_all [] ds = ds
  add_all (i ∷ is) ds = add_all is (add i ds)

module _ (time : Text → ℕ) where
  abbrev pub occurred : Interaction → ℕ
  occurred i = time i.occurred_at

  abbrev pub in_order : Day → Day
  unfolding sort
  in_order d = record d { items = sort (by_key occurred) d.items }

  -- `byDay`.
  unfoldable pub by_day : (Text → Text) → List Interaction → List Day
  unfolding add_all
  by_day day_key items = map in_order (add_all day_key items [])

  -- `isPlanned`, of frontend-next/src/interactions.ts.
  abbrev pub is_planned : ℕ → Interaction → Bool
  is_planned now i = ltb now (time i.occurred_at)

  abbrev pub is_open : ℕ → Interaction → Bool
  is_open now i = is_planned now i && not i.done

  -- The two dots of a day, and what is said of it.
  unfoldable pub logged : ℕ → List Interaction → Bool
  logged now items = any (λ i. not (is_planned now i) || i.done) items

  unfoldable pub planned : ℕ → List Interaction → Bool
  planned now items = any (is_open now) items

  unfoldable pub planned_count : ℕ → List Interaction → ℕ
  planned_count now items = length (filter (is_open now) items)

  unfoldable pub summary : ℕ → List Interaction → Text
  unfolding planned_count nat_text
  summary now [] = []
  summary now (i ∷ is) =
      let items = i ∷ is in
      codes ", "
      ++ (nat_text (length items)
          ++ (codes " "
              ++ ((if length items == 1 then codes "interaction" else codes "interactions")
                  ++ (if planned_count now items == 0
                      then []
                      else codes ", "
                        ++ (nat_text (planned_count now items) ++ codes " planned")))))

-- A `CalendarDate` is counted in days from a Sunday; `getUTCDay` has Sunday for 0.
abbrev pub CalendarDate : Type 0
CalendarDate = ℕ

abbrev pub weekday : CalendarDate → ℕ
weekday d = d % 7

-- The visible grid of a month, from its first and its last day.
unfoldable pub grid_start : CalendarDate → CalendarDate
grid_start first = first - (weekday first + 6) % 7

unfoldable pub grid_end : CalendarDate → CalendarDate
grid_end last = last + (7 - weekday last) % 7
