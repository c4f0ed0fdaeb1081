-- ===== src/Paging.antt =====
-- Paged lists: the window of a page and the buttons under it
-- (frontend-next/src/components/ui/Pagination.tsx, PAGE_SIZE of contacts.ts), and the calendar's
-- window fetched page by page (calendarInteractionsQuery of interactions.ts). The server is a
-- parameter: what it answers to `skip` and `limit`.
pub mod Windows
pub mod Fetch
mod Tests
use tiny_crm.Prelude.{
  ℕ, zero, suc, ◌+◌, ◌-◌, ◌*◌, ◌/◌, ◌≤◌, ◌≡◌, min, max, Bool, true, false, ◌||◌, ◌&&◌, Option, none,
  some, List, [], ◌∷◌, ◌++◌, length, ltb, leb, ◌==◌, if◌then◌else◌,
}

-- `PAGE_SIZE`.
abbrev pub page_size : ℕ
page_size = 25

-- `skip: (page - 1) * PAGE_SIZE` of the list queries; a page counts from 1.
abbrev pub skip_of : ℕ → ℕ
skip_of page = (page - 1) * page_size

-- `Math.ceil(total / pageSize)`, exact for the sizes of lists.
abbrev pub ceil_div : ℕ → ℕ → ℕ
ceil_div a b = (a + (b - 1)) / b

pub record PaginationView : Type 0 where
  pub first : ℕ
  pub last : ℕ
  pub total : ℕ
  pub page : ℕ
  pub pages : ℕ
  pub previous_disabled : Bool
  pub next_disabled : Bool

unfoldable pub pages_of : ℕ → ℕ → ℕ
pages_of page_size total = max 1 (ceil_div total page_size)

-- `Pagination`: nothing when everything fits on one page.
unfoldable pub pagination : (page page_size total : ℕ) → Bool → Option PaginationView
unfolding pages_of
pagination page page_size total is_stale =
    if leb (pages_of page_size total) 1 && leb page 1
    then none
    else some (record {
      first = min total ((page - 1) * page_size + 1);
      last = min total (page * page_size);
      total = total;
      page = page;
      pages = pages_of page_size total;
      previous_disabled = leb page 1 || is_stale;
      next_disabled = leb (pages_of page_size total) page || is_stale;
    })

-- What the API answers to a page's request.
pub record Page {ℓ} (A : Type ℓ) : Type ℓ where
  pub items : List A
  pub total : ℕ

module _ {ℓ} {A : Type ℓ} (serve : ℕ → ℕ → Page A) where
  -- The loop of `calendarInteractionsQuery`, from the items it has: the last page with all of the
  -- items, or nothing when the fuel is used up.
  unfoldable pub fetch_from : ℕ → List A → Option (Page A)
  fetch_from zero items = none
  fetch_from (suc fuel) items =
      let page = serve (length items) 200 in
      let more = items ++ page.items in
      let rest = fetch_from fuel more in
      if length page.items == 0 || leb page.total (length more)
      then some (record { items = more; total = page.total })
      else rest

  unfoldable pub fetch_calendar : ℕ → Option (Page A)
  unfolding fetch_from
  fetch_calendar fuel = fetch_from fuel []
