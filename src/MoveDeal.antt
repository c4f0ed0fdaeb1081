-- ===== src/MoveDeal.antt =====
-- Moving a deal between stages: frontend-next/src/useMoveDeal.ts and `moveDeal` of
-- frontend-next/src/deals.ts. The state is the hook's, with the board caches that it writes and the
-- requests that it sends. A cache is the data under one key ['deals', 'board', …] and whether a
-- fetch is on its way to it; what the query library does with them is its documented behaviour:
-- a cancelled fetch delivers nothing, an invalidated query on screen is fetched again.
pub mod Board
pub mod Requests
mod Tests
use tiny_crm.Prelude.{
  trim, Bool, true, false, Option, none, some, List, [], ◌∷◌, ◌++◌, map, Text, codes, text_eq,
  truthy, ℕ, if◌then◌else◌,
}
use tiny_crm.Deals.{Stage, lost, DealRead, stage_eq, stage_value}

-- The body of POST /deals/{deal_id}/stage.
pub record StageChange : Type 0 where
  pub deal_id : Text
  pub stage : Stage
  pub lost_reason : Option Text

-- `lostReason || null`.
abbrev pub or_null : Option Text → Option Text
or_null none = none
or_null (some []) = none
or_null (some (c ∷ s)) = some (c ∷ s)

unfoldable pub move_deal : Text → Stage → Option Text → StageChange
move_deal id stage lost_reason = record {
  deal_id = id;
  stage = stage;
  lost_reason = if stage_eq stage lost then or_null lost_reason else none;
}

pub record Page : Type 0 where
  pub items : List DealRead
  pub total : ℕ

pub record Cache : Type 0 where
  pub page : Option Page
  pub fetching : Bool

pub record MoveDeal : Type 0 where
  pub asking_why : Option DealRead
  pub boards : List Cache
  pub sent : List StageChange

-- `d.id === deal.id ? { ...d, stage } : d`.
abbrev pub restage : Text → Stage → DealRead → DealRead
restage id stage d = if text_eq d.id id then record d { stage = stage } else d

abbrev pub restage_page : Text → Stage → Option Page → Option Page
restage_page id stage none = none
restage_page id stage (some p) = some (record p { items = map (restage id stage) p.items })

-- `onMutate`: the fetches are cancelled, then every board is written.
unfoldable pub cancel : Cache → Cache
cancel c = record c { fetching = false }

unfoldable pub write_board : Text → Stage → Cache → Cache
write_board id stage c = record c { page = restage_page id stage c.page }

unfoldable pub on_mutate : Text → Stage → List Cache → List Cache
unfolding cancel write_board
on_mutate id stage boards = map (write_board id stage) (map cancel boards)

-- `onSettled`: the boards are fetched again.
unfoldable pub on_settled : List Cache → List Cache
on_settled boards = map (λ (c : Cache). record c { fetching = true }) boards

-- `mutation.mutate({ deal, stage, reason })`: `onMutate`, then the request.
unfoldable pub mutate : DealRead → Stage → Option Text → MoveDeal → MoveDeal
unfolding on_mutate move_deal
mutate deal stage reason s = record s {
  boards = on_mutate deal.id stage s.boards;
  sent = s.sent ++ move_deal deal.id stage reason ∷ [];
}

unfoldable pub move : DealRead → Stage → MoveDeal → MoveDeal
move deal stage s =
    if stage_eq deal.stage stage
    then s
    else if stage_eq stage lost
    then record s { asking_why = some deal }
    else mutate deal stage none s

unfoldable pub confirmed : Text → Option DealRead → MoveDeal → MoveDeal
confirmed reason none s = s
confirmed reason (some deal) s = mutate deal lost (some reason) s

-- `confirmLost`: the question is closed whether or not a deal was asked about.
unfoldable pub confirm_lost : Text → MoveDeal → MoveDeal
unfolding confirmed
confirm_lost reason s = record (confirmed reason s.asking_why s) { asking_why = none }

unfoldable pub cancel_lost : MoveDeal → MoveDeal
cancel_lost s = record s { asking_why = none }

-- A page of the API arrives at one board: it is kept if its fetch was not cancelled.
unfoldable pub deliver : Page → Cache → Cache
deliver p c = if c.fetching then record { page = some p; fetching = false } else c

abbrev pub deliver_at : ℕ → Page → List Cache → List Cache
deliver_at n p [] = []
deliver_at ℕ.zero p (c ∷ cs) = deliver p c ∷ cs
deliver_at (ℕ.suc n) p (c ∷ cs) = c ∷ deliver_at n p cs

unfoldable pub arrive : ℕ → Page → MoveDeal → MoveDeal
arrive n p s = record s { boards = deliver_at n p s.boards }

unfoldable pub settle : MoveDeal → MoveDeal
unfolding on_settled
settle s = record s { boards = on_settled s.boards }

-- `onSubmit` of `LostForm`, which hands the reason on.
abbrev pub submit_lost : Text → MoveDeal → MoveDeal
submit_lost reason s = confirm_lost (trim reason) s

-- What happens to the hook: a move, the question's form submitted with what was typed, and cancelled; a page that arrives, a request that settles.
pub data Event : Type 0 where
  moved : DealRead → Stage → Event
  confirmed_lost : Text → Event
  cancelled_lost : Event
  arrived : ℕ → Page → Event
  settled : Event

unfoldable pub step : Event → MoveDeal → MoveDeal
unfolding move mutate confirm_lost cancel_lost arrive settle
step (moved deal stage) s = move deal stage s
step (confirmed_lost reason) s = submit_lost reason s
step cancelled_lost s = cancel_lost s
step (arrived n p) s = arrive n p s
step settled s = settle s

unfoldable pub run : List Event → MoveDeal → MoveDeal
unfolding step
run [] s = s
run (e ∷ es) s = run es (step e s)
