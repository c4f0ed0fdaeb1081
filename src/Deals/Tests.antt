-- ===== src/Deals/Tests.antt =====
-- Runs of frontend-next/src/deals.ts, and its theorems at an input.
use tiny_crm.Prelude.{◌≡◌, refl, none, some, true, false, codes, trim, is_space}
use tiny_crm.Deals.{DealRead, fixed, rate_based, retainer, month, hour, lead, stage_label}
use tiny_crm.Money.{format_money}
use tiny_crm.Deals.Scopes.{scope_of, plate}
use tiny_crm.Deals.Value.{deal_value, value_summary}

abbrev pub sample : DealRead
sample = record {
  id = codes "deal-1";
  title = codes "Platform migration";
  value_type = fixed;
  fixed_value = none;
  rate = none;
  rate_unit = none;
  estimated_volume = none;
  volume_unit = none;
  expected_value = none;
  is_open_ended = false;
  currency = codes "EUR";
  stage = lead;
  expected_close_date = none;
  probability = none;
  lost_reason = none;
  closed_at = none;
  stage_changed_at = codes "2026-09-01T08:00:00Z";
  notes = none;
  contact_id = none;
  organization_id = none;
  contact_name = none;
  organization_name = none;
  is_open = true;
  is_won = false;
  is_active = true;
  has_next_step = false;
  created_at = codes "2026-09-01T08:00:00Z";
  updated_at = codes "2026-09-01T08:00:00Z";
  archived_at = none;
  version = 1;
}

labels :
    (stage_label (codes "negotiation") ≡ codes "Negotiation")
    × (stage_label (codes "mystery") ≡ codes "mystery")
unfolding stage_label
labels = (refl, refl)

nonsense : scope_of (some (codes "nonsense")) ≡ plate
unfolding scope_of
nonsense = refl

abbrev derived : DealRead
derived = record sample {
  value_type = rate_based;
  rate = some (codes "100");
  rate_unit = some hour;
  estimated_volume = some (codes "120");
  volume_unit = some hour;
  expected_value = some (codes "12000");
}

derived_value : deal_value derived ≡ record {
  headline = some (codes "12,000.00 EUR");
  detail = some (codes "100.00 EUR/hour × 120 hours");
}
unfolding deal_value format_money trim is_space
derived_value = refl

abbrev open_ended : DealRead
open_ended = record sample {
  value_type = retainer;
  rate = some (codes "5000");
  rate_unit = some month;
  is_open_ended = true;
}

open_ended_summary : value_summary open_ended ≡ some (codes "5,000.00 EUR/month · open-ended")
unfolding value_summary format_money trim is_space
open_ended_summary = refl
