-- ===== src/Sharing/Tests.antt =====
-- A share from a browser (frontend-next/src/routes/_authed/capture.tsx).
use tiny_crm.Prelude.{
  ◌≡◌, ◌≤◌, ◌+◌, refl, false, ◌&&◌, not, Option, none, some, [], ◌∷◌, List, Text, codes, trim,
  is_space, join, ltb, truthy,
}
use tiny_crm.Sharing.{
  compose_raw, parts_seen, Event, rendered, answered, refused, answer_lost, navigated, try_again,
  reloaded, run, step, arrived,
}
use tiny_crm.Sharing.Parts.{AreParts, parts_seen-AreParts}
use tiny_crm.Sharing.Once.{share_once}

abbrev parts : List (Option Text)
parts = some (codes "Jane ") ∷ some (codes "Jane") ∷ some (codes "https://x.example") ∷ none ∷ []

line : compose_raw parts ≡ codes "Jane https://x.example"
unfolding compose_raw parts_seen trim is_space join
line = refl

parts_seen-AreParts_example : AreParts parts (parts_seen parts [])
parts_seen-AreParts_example = parts_seen-AreParts parts

abbrev events : List Event
events =
    rendered
    ∷ rendered
    ∷ refused
    ∷ try_again
    ∷ answer_lost
    ∷ try_again
    ∷ answered (codes "k1")
    ∷ navigated
    ∷ reloaded
    ∷ rendered
    ∷ []

filed_twice : (run events (arrived parts)).captures ≡ 2
unfolding run step arrived compose_raw parts_seen trim is_space join
filed_twice = refl

share_once_example :
    ((run events (arrived parts)).captures
      ≤ 1 + (run events (arrived parts)).reloads + (run events (arrived parts)).losses)
    × ((ltb 0 (run events (arrived parts)).captures
          && not (truthy (run events (arrived parts)).raw))
        ≡ false)
share_once_example = share_once parts events
