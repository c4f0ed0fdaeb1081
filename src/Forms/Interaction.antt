-- ===== src/Forms/Interaction.antt =====
-- The form of an interaction: frontend-next/src/components/InteractionForm.tsx. `to_local` and `from_local`
-- are `toLocalDateTime` and `fromLocalDateTime` of frontend-next/src/format.ts, of which the second throws
-- on a text that is no moment, and `after` is whether a moment lies after the time it is.
pub mod Kept
mod Tests
use tiny_crm.Prelude.{
  ◌>>=◌, ℕ, Bool, true, false, ◌&&◌, ◌||◌, not, Option, none, some, List, [], ◌∷◌, Text, codes,
  truthy, trim, value_from, nat_text,
}
use tiny_crm.Format.{split_tags}
use tiny_crm.Format.Tags.{join_tags}
use tiny_crm.Forms.{Check, check, failing, when_valid, or_null, or_empty, is_number}
use tiny_crm.Forms.Links.{LinkPreset, preset_ids}

-- The values of `kindOptions`.
pub data Kind : Type 0 where
  call meeting event email note other : Kind

-- `FormInput`, and `FormOutput`, which differs in being trimmed.
pub record Values : Type 0 where
  pub kind : Kind
  pub subject : Text
  pub notes : Text
  pub when : Text
  pub duration : Text
  pub done : Bool
  pub tags : Text
  pub contact_ids : List Text
  pub organization_ids : List Text
  pub deal_ids : List Text
  pub project_ids : List Text

-- `InteractionCreate`: also what the form reads of an `InteractionRead`.
pub record InteractionCreate : Type 0 where
  pub kind : Kind
  pub subject : Text
  pub notes : Option Text
  pub occurred_at : Text
  pub duration_minutes : Option ℕ
  pub done : Bool
  pub tags : List Text
  pub contact_ids : List Text
  pub organization_ids : List Text
  pub deal_ids : List Text
  pub project_ids : List Text

-- The transforms of `formSchema`, and its checks.
unfoldable pub trimmed : Values → Values
trimmed v = record v {
  subject = trim v.subject;
  notes = trim v.notes;
  duration = trim v.duration;
  tags = trim v.tags;
}

unfoldable pub checks : Values → List Check
unfolding is_number
checks v =
    check (truthy v.subject) (codes "subject") (codes "Subject is required.")
    ∷ check (truthy v.when) (codes "when") (codes "When did it happen, or when will it?")
    ∷ check (not (truthy v.duration) || is_number v.duration) (codes "duration")
        (codes "Whole minutes, or leave it empty.")
    ∷ []

-- `v.duration ? Number(v.duration) : null`, and `duration_minutes != null ? String(duration_minutes) : ''`.
abbrev pub minutes_of : Text → Option ℕ
unfolding value_from
minutes_of [] = none
minutes_of (c ∷ s) = some (value_from 0 (c ∷ s))

abbrev pub minutes_text : Option ℕ → Text
unfolding nat_text
minutes_text none = []
minutes_text (some n) = nat_text n

-- `toBody`, with the moment that `fromLocalDateTime` returns.
unfoldable pub body_at : Values → Text → InteractionCreate
unfolding split_tags
body_at v occurred_at = record {
  kind = v.kind;
  subject = v.subject;
  notes = or_null v.notes;
  occurred_at = occurred_at;
  duration_minutes = minutes_of v.duration;
  done = v.done;
  tags = split_tags v.tags;
  contact_ids = v.contact_ids;
  organization_ids = v.organization_ids;
  deal_ids = v.deal_ids;
  project_ids = v.project_ids;
}

module _ (from_local : Text → Option Text) where
  -- What is handed on, if anything is: none also where `fromLocalDateTime` throws.
  unfoldable pub submit : Values → Option InteractionCreate
  unfolding trimmed checks body_at failing
  submit v = do
    w ← when_valid (failing (checks (trimmed v))) (trimmed v)
    occurred_at ← from_local w.when
    some (body_at w occurred_at)

  -- `onChange` of the moment: planned or logged follows it, until the checkbox is set by hand, which
  -- is what `dirty` says.
  unfoldable pub change_when : (Text → Bool) → Bool → Text → Values → Option Values
  change_when after dirty [] v = some (record v { when = [] })
  change_when after true (c ∷ s) v = some (record v { when = c ∷ s })
  change_when after false (c ∷ s) v = do
    iso ← from_local (c ∷ s)
    some (record v { when = c ∷ s; done = not (after iso) })

module _ (to_local : Text → Text) where
  -- `toDefaults`; `now` is the present moment.
  unfoldable pub to_defaults : Text → Option InteractionCreate → LinkPreset → Values
  unfolding join_tags
  to_defaults now none preset = record {
    kind = note;
    subject = [];
    notes = [];
    when = to_local now;
    duration = [];
    done = true;
    tags = [];
    contact_ids = preset_ids preset.contact_id;
    organization_ids = preset_ids preset.organization_id;
    deal_ids = preset_ids preset.deal_id;
    project_ids = preset_ids preset.project_id;
  }
  to_defaults now (some i) preset = record {
    kind = i.kind;
    subject = i.subject;
    notes = or_empty i.notes;
    when = to_local i.occurred_at;
    duration = minutes_text i.duration_minutes;
    done = i.done;
    tags = join_tags i.tags;
    contact_ids = i.contact_ids;
    organization_ids = i.organization_ids;
    deal_ids = i.deal_ids;
    project_ids = i.project_ids;
  }
