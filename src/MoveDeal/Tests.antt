-- ===== src/MoveDeal/Tests.antt =====
-- Runs of frontend-next/src/useMoveDeal.ts, and its theorems at an input.
use tiny_crm.Prelude.{
  is_space, trim, ◌≡◌, refl, none, some, true, false, List, [], ◌∷◌, Text, codes, All,
}
use tiny_crm.Deals.{DealRead, fixed, proposal, won, lost}
use tiny_crm.MoveDeal.{
  Page, MoveDeal, move, Event, moved, confirmed_lost, cancelled_lost, arrived, settled, step, run,
}
use tiny_crm.MoveDeal.Board.{IsMoved, arrivals, move-IsMoved}
use tiny_crm.MoveDeal.Requests.{IsReasoned, run-IsReasoned}

abbrev card : Text → DealRead
card id = record {
  id = id;
  title = codes "Platform migration";
  value_type = fixed;
  fixed_value = none;
  rate = none;
  rate_unit = none;
  estimated_volume = none;
  volume_unit = none;
  expected_value = none;
  is_open_ended = false;
  currency = codes "EUR";
  stage = proposal;
  expected_close_date = none;
  probability = none;
  lost_reason = none;
  closed_at = none;
  stage_changed_at = codes "2026-09-01T08:00:00Z";
  notes = none;
  contact_id = none;
  organization_id = none;
  contact_name = none;
  organization_name = none;
  is_open = true;
  is_won = false;
  is_active = true;
  has_next_step = false;
  created_at = codes "2026-09-01T08:00:00Z";
  updated_at = codes "2026-09-01T08:00:00Z";
  archived_at = none;
  version = 1;
}

abbrev first : DealRead
first = card (codes "deal-1")

abbrev stale : Page
stale = record { items = first ∷ card (codes "deal-2") ∷ []; total = 2 }

-- One board on screen, with a fetch on its way, and one that was never loaded.
abbrev start : MoveDeal
start = record {
  asking_why = none;
  boards =
      record { page = some stale; fetching = true } ∷ record { page = none; fetching = false } ∷ [];
  sent = [];
}

-- Asked about and cancelled, then asked about again and confirmed with blanks alone.
abbrev losing : List Event
losing =
    moved first lost
    ∷ cancelled_lost
    ∷ moved first lost
    ∷ confirmed_lost (codes "  ")
    ∷ arrived 0 stale
    ∷ settled
    ∷ []

one_request :
    (run losing start).sent
    ≡ record { deal_id = codes "deal-1"; stage = lost; lost_reason = none } ∷ []
unfolding run step trim is_space
one_request = refl

move-IsMoved_example :
    All
      (IsMoved (codes "deal-1") won)
      (run (arrivals ((0, stale) ∷ [])) (move first won start)).boards
move-IsMoved_example = move-IsMoved first won ((0, stale) ∷ []) start refl refl

run-IsReasoned_example : All IsReasoned (run losing start).sent
run-IsReasoned_example = run-IsReasoned losing start tt

abbrev keeping : List Event
keeping = moved first lost ∷ cancelled_lost ∷ moved first won ∷ settled ∷ []
