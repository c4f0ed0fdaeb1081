-- ===== src/Pickers/Tests.antt =====
-- Runs of the pickers of frontend-next/src/components, and their theorems at an input.
use tiny_crm.Prelude.{◌≡◌, refl, none, some, List, [], ◌∷◌, Text, codes}
use tiny_crm.Pickers.{
  PickerOption, LinksPicker, LinksEvent, choose, write, links_run, links_step, find_label,
  RecordPicker, PickEvent, select, input, pick_run,
}
use tiny_crm.Pickers.Links.{AreLinks, links_run-AreLinks}
use tiny_crm.Pickers.Single.{IsInStep, pick_run-IsInStep}

abbrev ada : PickerOption
ada = record { id = codes "c1"; label = codes "Ada" }

abbrev no_links : LinksPicker
no_links = record { value = []; text = codes "Ad"; added = none }

-- A choice, the label that the combobox writes after it, the same choice again, and a removal.
abbrev ada_twice : List LinksEvent
ada_twice =
    choose (some (codes "c1")) (ada ∷ [])
    ∷ write (codes "Ada")
    ∷ choose (some (codes "c1")) (ada ∷ [])
    ∷ []

-- The written label is swallowed: the field is empty for the next search.
ada_once :
    links_run ada_twice no_links ≡ record { value = codes "c1" ∷ []; text = []; added = none }
unfolding links_run links_step find_label
ada_once = refl

links_run-AreLinks_example : AreLinks (links_run ada_twice no_links).value
links_run-AreLinks_example = links_run-AreLinks ada_twice no_links tt

abbrev name_of : Text → Text
name_of id = codes "Ada"

abbrev nobody : RecordPicker
nobody = record { value = none; text = []; selected_label = [] }

abbrev picks : List PickEvent
picks = select (some (codes "c1")) (ada ∷ []) ∷ input (codes "Ad") ∷ []

pick_run-IsInStep_example : IsInStep name_of (pick_run picks nobody)
pick_run-IsInStep_example =
    pick_run-IsInStep name_of picks nobody ((refl, refl, (refl, tt)), (tt, tt)) refl
