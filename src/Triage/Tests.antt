-- ===== src/Triage/Tests.antt =====
-- Runs of the inbox of frontend-next/src/routes/_authed/inbox, and its theorems at an input.
use tiny_crm.Prelude.{
  ◌≡◌, refl, Bool, true, none, some, [], ◌∷◌, Text, codes, any, ◌==◌, trim, is_space,
}
use tiny_crm.Triage.{Capture, to_body, trimmed, submit, defaults_for, next_of, converted, triage}
use tiny_crm.Triage.Queue.{IsNext, next_of-IsNext}
use tiny_crm.Triage.Converts.{IsConvert, submit-IsConvert}

abbrev ada : Capture
ada = record {
  id = codes "k1";
  raw = codes "Ada https://ada.example";
  name = some (codes "Ada");
  url = some (codes "https://ada.example");
}

abbrev bob : Capture
bob = record { id = codes "k2"; raw = codes "Bob"; name = some (codes "Bob"); url = none }

-- The last of the queue leads back to the first.
last_leads_back : next_of (ada ∷ bob ∷ []) (codes "k2") ≡ some ada
unfolding next_of
last_leads_back = refl

ada_is_a_lead :
    (converted (some bob) (codes "Ada") true).place ≡ triage (codes "k2") (codes "Ada is a lead.")
unfolding converted
ada_is_a_lead = refl

next_of-IsNext_example :
    IsNext (ada ∷ bob ∷ []) (codes "k1") (next_of (ada ∷ bob ∷ []) (codes "k1"))
next_of-IsNext_example = next_of-IsNext (ada ∷ bob ∷ []) (codes "k1") (refl, (refl, tt))

abbrev has_at : Text → Bool
has_at t = any (λ c. c == b'@') t

submit-defaults_for : submit has_at (defaults_for ada) ≡ some (to_body (trimmed (defaults_for ada)))
unfolding submit trim is_space
submit-defaults_for = refl

submit-IsConvert_example : IsConvert has_at (to_body (trimmed (defaults_for ada)))
submit-IsConvert_example =
    submit-IsConvert has_at (defaults_for ada) (to_body (trimmed (defaults_for ada)))
      submit-defaults_for
