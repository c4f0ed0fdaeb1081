-- ===== src/TagPicker/Tests.antt =====
-- Runs of frontend-next/src/components/TagPicker.tsx, and its theorems at an input. `lower` is the
-- lower case of ASCII here.
use tiny_crm.Prelude.{
  join, arith, All, split, includes, ◌≡◌, refl, none, some, true, false, List, [], ◌∷◌, map, Text,
  codes, leb, ◌&&◌, if◌then◌else◌, ◌+◌, trim, is_space, truthy,
}
use tiny_crm.TagPicker.{
  split_tags, TagPicker, Event, input, select, enter, backspace, remove, run, step,
}
use tiny_crm.Format.{split_tags}
use tiny_crm.TagPicker.Valid.{IsValid}
use tiny_crm.TagPicker.Held.{IsFree, HasNoComma, run-IsHeld}

abbrev ascii_lower : Text → Text
ascii_lower s = map (λ c. if leb b'A' c && leb c b'Z' then c + 32 else c) s

abbrev empty : TagPicker
empty = record { value = codes "VIP" ∷ []; text = []; added = none }

abbrev all_tags : List Text
all_tags = codes "lead" ∷ codes "Vip" ∷ []

-- Pasted, typed, picked and removed.
abbrev session : List Event
session =
    input (codes "a, vip , b,c")
    ∷ enter false
    ∷ input (codes "LE")
    ∷ select (some (codes "tag:lead"))
    ∷ input (codes "lead")
    ∷ backspace
    ∷ remove (codes "A")
    ∷ []

session_ends :
    run ascii_lower all_tags session empty
    ≡ record { value = codes "VIP" ∷ codes "b" ∷ codes "c" ∷ []; text = []; added = none }
unfolding run step trim is_space split includes split_tags join
session_ends = refl

empty-IsValid : IsValid ascii_lower empty
unfolding trim is_space
empty-IsValid = record { filled = ((refl, refl), tt); distinct = (refl, tt) }

offered : All IsFree all_tags
offered = ground arith

empty-HasNoComma : HasNoComma empty
empty-HasNoComma = record { of_value = ground arith; of_text = tt }

run-IsHeld_example :
    IsValid ascii_lower (run ascii_lower all_tags session empty)
    × HasNoComma (run ascii_lower all_tags session empty)
run-IsHeld_example =
    run-IsHeld ascii_lower all_tags session empty offered empty-IsValid empty-HasNoComma

filled_vip : truthy (trim (codes " vip")) ≡ true
unfolding trim is_space
filled_vip = refl
