-- ===== src/Paging/Windows.antt =====
-- The windows of the pages: frontend-next/src/components/ui/Pagination.tsx and PAGE_SIZE.
use mathlib.Core.Option.{some-injective, none-ne-some}
use tiny_crm.Prelude.{
  ℕ, ◌+◌, ◌-◌, ◌*◌, ◌≡◌, ◌≤◌, ◌<◌, ◌↔◌, min, subst, Bool, true, false, ◌&&◌, ◌||◌, none, some,
  if◌then◌else◌, leb, arith,
}
use tiny_crm.Paging.{PaginationView, pagination, pages_of, page_size, skip_of}

-- What is shown, when something is.
abbrev view_of : (page total : ℕ) → Bool → PaginationView
view_of page total is_stale = record {
  first = min total ((page - 1) * page_size + 1);
  last = min total (page * page_size);
  total = total;
  page = page;
  pages = pages_of page_size total;
  previous_disabled = leb page 1 || is_stale;
  next_disabled = leb (pages_of page_size total) page || is_stale;
}

pagination-view_of :
    (page total : ℕ) (is_stale : Bool) (v : PaginationView)
    → pagination page page_size total is_stale ≡ some v
    → view_of page total is_stale ≡ v
unfolding pagination
pagination-view_of page total is_stale v = cases (leb (pages_of page_size total) 1 && leb page 1)
  where
    cases :
        (b : Bool)
        → (if b then none else some (view_of page total is_stale)) ≡ some v
        → view_of page total is_stale ≡ v
    cases true e = absurd (none-ne-some _ e)
    cases false e = some-injective _ _ e

-- On a page that exists, the label counts an item in exactly when the page's request asks for it.
pub pagination-window :
    (page total i : ℕ) (is_stale : Bool) (v : PaginationView)
    → 1 ≤ page
    → page ≤ pages_of page_size total
    → i < total
    → pagination page page_size total is_stale ≡ some v
    → ((v.first ≤ i + 1) × (i + 1 ≤ v.last)) ↔ ((skip_of page ≤ i) × (i < skip_of page + page_size))
unfolding pages_of
pagination-window page total i is_stale v h1 hp hi e =
    subst
      (λ w.
        ((w.first ≤ i + 1) × (i + 1 ≤ w.last))
        ↔ ((skip_of page ≤ i) × (i < skip_of page + page_size)))
      (pagination-view_of page total is_stale v e) (ground arith)

-- While no newer page is loading, "Next" works exactly when an item comes after the page, and
-- "Previous" exactly when one comes before it.
pub pagination-buttons :
    (page total : ℕ) (v : PaginationView)
    → 1 ≤ page
    → pagination page page_size total false ≡ some v
    → ((v.next_disabled ≡ false) ↔ (skip_of (page + 1) < total))
      × ((v.previous_disabled ≡ false) ↔ (0 < skip_of page))
unfolding pages_of
pagination-buttons page total v h1 e =
    subst
      (λ w.
        ((w.next_disabled ≡ false) ↔ (skip_of (page + 1) < total))
        × ((w.previous_disabled ≡ false) ↔ (0 < skip_of page)))
      (pagination-view_of page total false v e) (ground arith)

-- Nothing stands under a list, on its first page, exactly when that page holds the whole of it.
pub pagination-none_iff :
    (total : ℕ) (is_stale : Bool)
    → (pagination 1 page_size total is_stale ≡ none) ↔ (total ≤ page_size)
unfolding pagination pages_of
pagination-none_iff total is_stale = ground arith
