-- ===== src/Paging/Tests.antt =====
-- Runs of frontend-next/src/components/ui/Pagination.tsx and of the calendar's loop.
use tiny_crm.Prelude.{ℕ, ◌≤◌, ◌≡◌, refl, true, false, some, List, [], ◌∷◌, arith}
use tiny_crm.Paging.{PaginationView, pagination, pages_of, page_size, fetch_calendar}
use tiny_crm.Paging.Fetch.{slice, fetch_calendar_lem}

-- The second of three pages of 60 items.
abbrev second_page : PaginationView
second_page = record {
  first = 26;
  last = 50;
  total = 60;
  page = 2;
  pages = 3;
  previous_disabled = false;
  next_disabled = false;
}

second_page_shown : pagination 2 page_size 60 false ≡ some second_page
unfolding pagination
second_page_shown = refl

three_pages : 2 ≤ pages_of page_size 60
unfolding pages_of
three_pages = omega arith

-- A page after the last one still counts the last item in its label.
past_the_end :
    pagination 3 page_size 30 false
    ≡ some (record {
      first = 30;
      last = 30;
      total = 30;
      page = 3;
      pages = 2;
      previous_disabled = false;
      next_disabled = true;
    })
unfolding pagination
past_the_end = refl

-- Seven items of a server that gives three at a time.
abbrev seven : List ℕ
seven = 1 ∷ 2 ∷ 3 ∷ 4 ∷ 5 ∷ 6 ∷ 7 ∷ []

fetch_calendar_lem_example :
    fetch_calendar (slice seven 3) 8 ≡ some (record { items = seven; total = 7 })
fetch_calendar_lem_example =
    fetch_calendar_lem (slice seven 3) seven 3 8 (λ skip limit. refl) (omega arith) (omega arith)
