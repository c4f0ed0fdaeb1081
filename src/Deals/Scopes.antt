-- ===== src/Deals/Scopes.antt =====
-- What the list of deals is asked for: the scopes of frontend-next/src/deals.ts.
use tiny_crm.Prelude.{
  ◌≡◌, refl, inl, inr, Bool, true, false, not, Option, none, some, List, [], ◌∷◌, ◌++◌, map, Text,
  codes, text_eq, find, any, ap, ◌∙◌, ◌⊎◌, Bool-cases, text_eq_iff, arith, if◌then◌else◌,
}
use tiny_crm.Deals.{
  Stage, draft, lead, qualified, proposal, negotiation, won, running, completed, lost, stage_value,
  StageOption, stage_options, in_play, open_stages, won_stages, is_decided, includes_stage,
  stage_tone, success, danger, accent,
}

pub data Status : Type 0 where
  opened active winning finished : Status

pub record Scope : Type 0 where
  pub value : Text
  pub label : Text
  pub status : Option Status
  pub stage : Option Stage
  pub stalled : Bool
  pub overdue : Bool
  pub columns : List Stage

abbrev pub plate : Scope
plate = record {
  value = codes "plate";
  label = codes "On my plate";
  status = some active;
  stage = none;
  stalled = false;
  overdue = false;
  columns = open_stages ++ won ∷ running ∷ [];
}

abbrev pub competing : Scope
competing = record plate {
  value = codes "competing";
  label = codes "Still competing";
  status = some opened;
  columns = open_stages;
}

abbrev pub won_any : Scope
won_any = record plate {
  value = codes "won";
  label = codes "Won (any state)";
  status = some winning;
  columns = won_stages;
}

abbrev pub finished_deals : Scope
finished_deals = record plate {
  value = codes "finished";
  label = codes "Finished";
  status = some finished;
  columns = completed ∷ lost ∷ [];
}

abbrev pub no_next_step : Scope
no_next_step = record plate {
  value = codes "stalled";
  label = codes "No next step";
  status = none;
  stalled = true;
  columns = in_play;
}

abbrev pub past_close : Scope
past_close = record plate {
  value = codes "overdue";
  label = codes "Past expected close";
  status = none;
  overdue = true;
  columns = in_play;
}

abbrev pub all_deals : Scope
all_deals = record plate {
  value = codes "all";
  label = codes "All deals";
  status = none;
  columns = map (λ (o : StageOption). o.value) stage_options;
}

abbrev pub stage_scope : StageOption → Scope
stage_scope o = record {
  value = codes "stage-" ++ stage_value o.value;
  label = codes "· " ++ o.label;
  status = none;
  stage = some o.value;
  stalled = false;
  overdue = false;
  columns = o.value ∷ [];
}

-- `scopeOptions`.
abbrev pub scope_options : List Scope
scope_options =
    plate
    ∷ competing
    ∷ won_any
    ∷ finished_deals
    ∷ no_next_step
    ∷ past_close
    ∷ all_deals
    ∷ map stage_scope stage_options

abbrev pub or_plate : Option Scope → Scope
or_plate none = plate
or_plate (some s) = s

-- `scopeOf`: no value asked for is the value of no option.
unfoldable pub scope_of : Option Text → Scope
scope_of none = plate
scope_of (some value) = or_plate (find (λ s. text_eq s.value value) scope_options)

-- `scopeQuery`: the part of a scope that the API is asked by.
pub record ScopeQuery : Type 0 where
  pub status : Option Status
  pub stage : Option Stage
  pub stalled : Bool
  pub overdue : Bool

unfoldable pub scope_query : Option Text → ScopeQuery
unfolding scope_of
scope_query scope = record {
  status = (scope_of scope).status;
  stage = (scope_of scope).stage;
  stalled = (scope_of scope).stalled;
  overdue = (scope_of scope).overdue;
}

find_value :
    (v : Text) (ss : List Scope)
    → (find (λ s. text_eq s.value v) ss ≡ none)
      ⊎ ((s : Scope) × (find (λ s. text_eq s.value v) ss ≡ some s) × (s.value ≡ v))
find_value v [] = inl refl
find_value v (s ∷ ss) = elim (Bool-cases (text_eq s.value v)) [
  | inl e ↦ rw e (inr (s, refl, (text_eq_iff s.value v).0 e))
  | inr e ↦ rw e (find_value v ss)
]

find-none-any :
    (v : Text) (ss : List Scope)
    → find (λ s. text_eq s.value v) ss ≡ none
    → any (λ s. text_eq s.value v) ss ≡ false
find-none-any v [] e = refl
find-none-any v (s ∷ ss) e = ground (arith, find-none-any v ss)

-- A text asks for the scope with that value; one that is no scope's value asks for "On my plate".
pub scope_of_lem :
    (v : Text)
    → ((scope_of (some v)).value ≡ v)
      ⊎ ((any (λ s. text_eq s.value v) scope_options ≡ false) × (scope_of (some v) ≡ plate))
unfolding scope_of
scope_of_lem v = elim (find_value v scope_options) [
  | inl e ↦ inr (find-none-any v scope_options e, ap or_plate e)
  | inr (s, e, k) ↦ inl (ap (λ o. (or_plate o).value) e ∙ k)
]

-- Every stage has a scope of its own, which asks for that stage alone and shows its column alone.
pub scope_of-stage :
    (s : Stage)
    → (scope_query (some (codes "stage-" ++ stage_value s))
        ≡ record { status = none; stage = some s; stalled = false; overdue = false })
      × ((scope_of (some (codes "stage-" ++ stage_value s))).columns ≡ s ∷ [])
unfolding scope_query
scope_of-stage draft = (refl, refl)
scope_of-stage lead = (refl, refl)
scope_of-stage qualified = (refl, refl)
scope_of-stage proposal = (refl, refl)
scope_of-stage negotiation = (refl, refl)
scope_of-stage won = (refl, refl)
scope_of-stage running = (refl, refl)
scope_of-stage completed = (refl, refl)
scope_of-stage lost = (refl, refl)

-- A stage is decided exactly if it is not open; an open one is a draft or in play, a decided one won
-- or lost. The tone says which: none for a draft, then accent, success and danger.
pub stage_tone_lem :
    (s : Stage)
    → (is_decided (stage_value s) ≡ not (includes_stage open_stages (stage_value s)))
      × (stage_tone (stage_value s) ≡ (
          if is_decided (stage_value s)
          then some (if includes_stage won_stages (stage_value s) then success else danger)
          else if includes_stage in_play (stage_value s)
          then some accent
          else none))
unfolding is_decided stage_tone
stage_tone_lem draft = (refl, refl)
stage_tone_lem lead = (refl, refl)
stage_tone_lem qualified = (refl, refl)
stage_tone_lem proposal = (refl, refl)
stage_tone_lem negotiation = (refl, refl)
stage_tone_lem won = (refl, refl)
stage_tone_lem running = (refl, refl)
stage_tone_lem completed = (refl, refl)
stage_tone_lem lost = (refl, refl)
