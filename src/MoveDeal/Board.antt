-- ===== src/MoveDeal/Board.antt =====
-- What the boards show: frontend-next/src/useMoveDeal.ts.
use tiny_crm.Prelude.{
  ℕ, zero, suc, ◌≡◌, refl, ap, inl, inr, true, false, not, Option, none, some, List, [], ◌∷◌, map,
  arith, Text, text_eq, All, filter, Bool-cases,
}
use tiny_crm.Deals.{Stage, lost, DealRead, stage_eq}
use tiny_crm.MoveDeal.{
  Page, Cache, MoveDeal, restage, restage_page, write_board, on_mutate, mutate, move, deliver,
  deliver_at, arrive, Event, arrived, run,
}

-- Every deal of that id on the board stands in that stage.
abbrev pub Shows : Text → Stage → Option Page → Type 0
Shows id stage none = Unit
Shows id stage (some p) = All (λ (d : DealRead). text_eq d.id id ≡ true → d.stage ≡ stage) p.items

-- And nothing on its way can change that.
pub record IsMoved (id : Text) (stage : Stage) (c : Cache) : Type 0 where
  pub shows : Shows id stage c.page
  pub quiet : c.fetching ≡ false

restage-Shows :
    (id : Text) (stage : Stage) (ds : List DealRead)
    → All (λ (d : DealRead). text_eq d.id id ≡ true → d.stage ≡ stage) (map (restage id stage) ds)
restage-Shows id stage [] = tt
restage-Shows id stage (d ∷ ds) = ((λ h. ground arith), restage-Shows id stage ds)

restage_page-Shows :
    (id : Text) (stage : Stage) (p : Option Page) → Shows id stage (restage_page id stage p)
restage_page-Shows id stage none = tt
restage_page-Shows id stage (some p) = restage-Shows id stage p.items

on_mutate-IsMoved :
    (id : Text) (stage : Stage) (cs : List Cache) → All (IsMoved id stage) (on_mutate id stage cs)
unfolding on_mutate
on_mutate-IsMoved id stage [] = tt
on_mutate-IsMoved id stage (c ∷ cs) = (
  record { shows = restage_page-Shows id stage c.page; quiet = refl },
  on_mutate-IsMoved id stage cs,
)

deliver-IsMoved :
    (id : Text) (stage : Stage) (p : Page) (c : Cache)
    → IsMoved id stage c
    → IsMoved id stage (deliver p c)
unfolding deliver
deliver-IsMoved id stage p c h = simp (h.quiet, deliver) h

deliver_at-IsMoved :
    (id : Text) (stage : Stage) (n : ℕ) (p : Page) (cs : List Cache)
    → All (IsMoved id stage) cs
    → All (IsMoved id stage) (deliver_at n p cs)
deliver_at-IsMoved id stage n p [] h = tt
deliver_at-IsMoved id stage zero p (c ∷ cs) h = (deliver-IsMoved id stage p c h.0, h.1)
deliver_at-IsMoved id stage (suc n) p (c ∷ cs) h = (h.0, deliver_at-IsMoved id stage n p cs h.1)

-- Pages that arrive, in any order, at any boards.
abbrev pub arrivals : List (ℕ × Page) → List Event
arrivals = map (λ (a : ℕ × Page). arrived a.0 a.1)

run-arrivals :
    (id : Text) (stage : Stage) (ps : List (ℕ × Page)) (s : MoveDeal)
    → All (IsMoved id stage) s.boards
    → All (IsMoved id stage) (run (arrivals ps) s).boards
unfolding run arrive
run-arrivals id stage [] s h = h
run-arrivals id stage ((n, p) ∷ ps) s h =
    run-arrivals id stage ps (arrive n p s) (deliver_at-IsMoved id stage n p s.boards h)

-- A move to another stage than Lost is seen on every board at once, and pages that were asked for
-- before it do not undo it, whichever arrive before the request settles.
pub move-IsMoved :
    (deal : DealRead) (stage : Stage) (ps : List (ℕ × Page)) (s : MoveDeal)
    → stage_eq deal.stage stage ≡ false
    → stage_eq stage lost ≡ false
    → All (IsMoved deal.id stage) (run (arrivals ps) (move deal stage s)).boards
unfolding move
move-IsMoved deal stage ps s h k =
    run-arrivals deal.id stage ps (move deal stage s)
      (rw (h, move) (rw k (unfold mutate in on_mutate-IsMoved deal.id stage s.boards)))

-- The ids of a board, in order, and the deals on it with another id.
abbrev pub ids : Option Page → List Text
ids none = []
ids (some p) = map (λ (d : DealRead). d.id) p.items

abbrev pub others : Text → Option Page → List DealRead
others id none = []
others id (some p) = filter (λ d. not (text_eq d.id id)) p.items

abbrev pub total_of : Option Page → Option ℕ
total_of none = none
total_of (some p) = some p.total

restage-id : (id : Text) (stage : Stage) (d : DealRead) → (restage id stage d).id ≡ d.id
restage-id id stage d = ground arith

restage-ids :
    (id : Text) (stage : Stage) (ds : List DealRead)
    → map (λ (d : DealRead). d.id) (map (restage id stage) ds) ≡ map (λ (d : DealRead). d.id) ds
restage-ids id stage [] = refl
restage-ids id stage (d ∷ ds) = cc (restage-id id stage d, restage-ids id stage ds)

restage-others :
    (id : Text) (stage : Stage) (ds : List DealRead)
    → filter (λ (d : DealRead). not (text_eq d.id id)) (map (restage id stage) ds)
      ≡ filter (λ d. not (text_eq d.id id)) ds
restage-others id stage [] = refl
restage-others id stage (d ∷ ds) = elim (Bool-cases (text_eq d.id id)) [
  | inl e ↦ rw (e, e) (restage-others id stage ds)
  | inr e ↦ rw (e, e) (ap (d ∷◌) (restage-others id stage ds))
]

-- Writing a board moves one deal and nothing else: no deal comes, goes or changes its place, the
-- total stays, and the deals with another id stay as they are.
pub write_board_lem :
    (id : Text) (stage : Stage) (c : Cache)
    → (ids (write_board id stage c).page ≡ ids c.page)
      × (others id (write_board id stage c).page ≡ others id c.page)
      × (total_of (write_board id stage c).page ≡ total_of c.page)
unfolding write_board
write_board_lem id stage c = by_page c.page
  where
    by_page :
        (p : Option Page)
        → (ids (restage_page id stage p) ≡ ids p)
          × (others id (restage_page id stage p) ≡ others id p)
          × (total_of (restage_page id stage p) ≡ total_of p)
    by_page none = (refl, refl, refl)
    by_page (some p) = (restage-ids id stage p.items, restage-others id stage p.items, refl)
