-- ===== src/Deals.antt =====
-- The deals of the pipeline: frontend-next/src/deals.ts, and the shape of a deal as
-- frontend-next/src/api/schema.d.ts has it. A value of a union of literals is a constructor, and
-- its literal is what `stage_value` and the like give; `null` and `undefined` are `none`.
pub mod Scopes
pub mod Value
pub mod Board
mod Tests
use tiny_crm.Prelude.{
  ℕ, Bool, true, false, ◌||◌, Option, none, some, List, [], ◌∷◌, ◌++◌, Text, codes, text_eq, find,
  any, if◌then◌else◌,
}

pub data Stage : Type 0 where
  draft lead qualified proposal negotiation won running completed lost : Stage

pub data ValueType : Type 0 where
  fixed rate_based retainer : ValueType

pub data TimeUnit : Type 0 where
  hour day week month : TimeUnit

pub record DealRead : Type 0 where
  pub id : Text
  pub title : Text
  pub value_type : ValueType
  pub fixed_value : Option Text
  pub rate : Option Text
  pub rate_unit : Option TimeUnit
  pub estimated_volume : Option Text
  pub volume_unit : Option TimeUnit
  pub expected_value : Option Text
  pub is_open_ended : Bool
  pub currency : Text
  pub stage : Stage
  pub expected_close_date : Option Text
  pub probability : Option ℕ
  pub lost_reason : Option Text
  pub closed_at : Option Text
  pub stage_changed_at : Text
  pub notes : Option Text
  pub contact_id : Option Text
  pub organization_id : Option Text
  pub contact_name : Option Text
  pub organization_name : Option Text
  pub is_open : Bool
  pub is_won : Bool
  pub is_active : Bool
  pub has_next_step : Bool
  pub created_at : Text
  pub updated_at : Text
  pub archived_at : Option Text
  pub version : ℕ

abbrev pub stage_value : Stage → Text
stage_value draft = codes "draft"
stage_value lead = codes "lead"
stage_value qualified = codes "qualified"
stage_value proposal = codes "proposal"
stage_value negotiation = codes "negotiation"
stage_value won = codes "won"
stage_value running = codes "running"
stage_value completed = codes "completed"
stage_value lost = codes "lost"

-- `a === b` on stages: on their literals.
abbrev pub stage_eq : Stage → Stage → Bool
stage_eq s t = text_eq (stage_value s) (stage_value t)

pub record StageOption : Type 0 where
  pub value : Stage
  pub label : Text

abbrev pub stage_option : Stage → Text → StageOption
stage_option value label = record { value = value; label = label }

-- `stageOptions`: the pipeline, left to right.
abbrev pub stage_options : List StageOption
stage_options =
    stage_option draft (codes "Draft")
    ∷ stage_option lead (codes "Lead")
    ∷ stage_option qualified (codes "Qualified")
    ∷ stage_option proposal (codes "Proposal")
    ∷ stage_option negotiation (codes "Negotiation")
    ∷ stage_option won (codes "Won")
    ∷ stage_option running (codes "Running")
    ∷ stage_option completed (codes "Completed")
    ∷ stage_option lost (codes "Lost")
    ∷ []

abbrev pub label_or : Text → Option StageOption → Text
label_or stage none = stage
label_or stage (some o) = o.label

-- `stageLabel`.
unfoldable pub stage_label : Text → Text
stage_label stage = label_or stage (find (λ o. text_eq (stage_value o.value) stage) stage_options)

abbrev pub in_play : List Stage
in_play = lead ∷ qualified ∷ proposal ∷ negotiation ∷ []

abbrev pub open_stages : List Stage
open_stages = draft ∷ in_play

abbrev pub won_stages : List Stage
won_stages = won ∷ running ∷ completed ∷ []

abbrev pub decided : List Stage
decided = won_stages ++ lost ∷ []

-- `stages.includes(stage as Stage)`.
abbrev pub includes_stage : List Stage → Text → Bool
includes_stage stages stage = any (λ s. text_eq (stage_value s) stage) stages

unfoldable pub is_decided : Text → Bool
is_decided stage = includes_stage decided stage

pub data Tone : Type 0 where
  success danger accent : Tone

unfoldable pub stage_tone : Text → Option Tone
stage_tone stage =
    if text_eq stage (codes "draft")
    then none
    else if text_eq stage (codes "lost")
    then some danger
    else if includes_stage won_stages stage
    then some success
    else some accent
