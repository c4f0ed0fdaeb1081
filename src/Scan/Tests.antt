-- ===== src/Scan/Tests.antt =====
-- The theorems on scanned cards (frontend-next/src/routes/_authed/contacts/scan.tsx) at two photos and a card.
use tiny_crm.Prelude.{
  List, ◌≡◌, refl, ℕ, Bool, false, Option, none, some, [], ◌∷◌, Text, codes, starts_with, includes,
  join, trim, is_space,
}
use tiny_crm.Scan.{Event, set_front, set_back, was_read, rescan, run, leave, step}
use tiny_crm.Scan.Photos.{IsHeld, holds, opened, photo_urls}
use tiny_crm.Scan.Review.{CardContact, BusinessCardScan, Values, to_body, trimmed, submit}
use tiny_crm.Scan.Review.Defaults.{address_of, to_defaults}
use tiny_crm.Scan.Review.Company.{shown, submit-shown, IsImport, IsChosen, submit-IsImport}

abbrev photos : List (Event Text Text)
photos =
    set_front (some (codes "a.jpg"))
    ∷ set_back (some (codes "b.jpg"))
    ∷ was_read (codes "Ada")
    ∷ rescan
    ∷ set_front (some (codes "c.jpg"))
    ∷ set_back none
    ∷ []

one_left : (run photos (opened 7)).urls ≡ record { held = 9 ∷ []; next = 10 }
unfolding run step
one_left = refl

photo_urls_example :
    IsHeld (run photos (opened 7))
    × ((u : ℕ) → holds (leave (run photos (opened 7))).held u ≡ false)
photo_urls_example = photo_urls 7 photos

abbrev with_at : Text → Bool
unfolding includes
with_at t = includes t (codes "@")

abbrev host_at : Text → Option Text
host_at t = some (codes "www.acme.example")

abbrev ada : CardContact
ada = record {
  name = some (codes "Ada Byron ");
  job_title = none;
  email = some (codes "ada@acme.example");
  email_secondary = none;
  phone = none;
  phone_secondary = none;
  website = some (codes "acme.example");
  street = some (codes "Main St 1");
  postal_code = some (codes "1010");
  city = some (codes "Wien");
  country = some (codes "at");
  notes = none;
}

abbrev on_file : BusinessCardScan
on_file = record { contact = ada; organization = none; match_id = some (codes "o1") }

an_address : address_of ada ≡ codes "Main St 1, 1010 Wien, at"
unfolding address_of join
an_address = refl

abbrev read_values : Values
unfolding to_defaults
read_values = to_defaults host_at on_file

a_domain : read_values.org_domain ≡ codes "acme.example"
unfolding to_defaults read_values starts_with includes
a_domain = refl

submitted : submit with_at read_values ≡ some (to_body (trimmed read_values))
unfolding submit trimmed trim is_space with_at read_values to_defaults
submitted = refl

submit-shown_example : submit with_at (shown read_values) ≡ submit with_at read_values
submit-shown_example = submit-shown with_at read_values

submit-IsImport_example :
    IsImport with_at (to_body (trimmed read_values))
    × IsChosen with_at read_values.company (to_body (trimmed read_values))
submit-IsImport_example =
    submit-IsImport with_at read_values (to_body (trimmed read_values)) submitted
