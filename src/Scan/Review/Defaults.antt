-- ===== src/Scan/Review/Defaults.antt =====
-- What the review of a card starts from: `toDefaults` of frontend-next/src/routes/_authed/contacts/scan.tsx.
-- `host` is the `hostname` of a `URL`, none where its constructor throws.
use tiny_crm.Prelude.{
  Option, none, some, List, [], ◌∷◌, ◌++◌, Text, codes, truthy, filter, drop, join, includes,
  starts_with, if◌then◌else◌,
}
use tiny_crm.Forms.{or_empty}
use tiny_crm.Scan.Review.{
  CompanyChoice, existing, new, no_company, CardContact, CardOrganization, BusinessCardScan, Values,
}

-- `[…].filter(Boolean).join(…)`.
abbrev pub joined_given : Text → List Text → Text
unfolding join
joined_given sep parts = join sep (filter truthy parts)

-- `addressOf`.
unfoldable pub address_of : CardContact → Text
unfolding join
address_of c = joined_given (codes ", ") (
    or_empty c.street
    ∷ joined_given (codes " ") (or_empty c.postal_code ∷ or_empty c.city ∷ [])
    ∷ or_empty c.country
    ∷ [])

-- `replace(/^www\./, '')`, of what the `URL` has for a host.
abbrev pub bare_host : Option Text → Text
bare_host none = []
bare_host (some h) = if starts_with h (codes "www.") then drop 4 h else h

-- `scan.match ? 'existing' : o ? 'new' : 'none'`.
abbrev pub first_choice : Option Text → Option CardOrganization → CompanyChoice
first_choice (some id) o = existing
first_choice none (some o) = new
first_choice none none = no_company

abbrev pub name_of : CardOrganization → Option Text
name_of o = some o.name

abbrev pub of_company : (CardOrganization → Option Text) → Option CardOrganization → Text
of_company field none = []
of_company field (some o) = or_empty (field o)

abbrev pub of_company_or : (CardOrganization → Option Text) → Text → Option CardOrganization → Text
of_company_or field other none = other
of_company_or field other (some o) = or_empty (field o)

module _ (host : Text → Option Text) where
  -- `hostOf`.
  abbrev pub host_of : Option Text → Text
  unfolding includes starts_with
  host_of none = []
  host_of (some []) = []
  host_of (some (c ∷ s)) =
      let website = c ∷ s in
      bare_host
        (host (if includes website (codes "://") then website else codes "https://" ++ website))

  -- `toDefaults`.
  unfoldable pub to_defaults : BusinessCardScan → Values
  unfolding address_of
  to_defaults scan = record {
    name = or_empty scan.contact.name;
    job_title = or_empty scan.contact.job_title;
    email = or_empty scan.contact.email;
    email_secondary = or_empty scan.contact.email_secondary;
    phone = or_empty scan.contact.phone;
    phone_secondary = or_empty scan.contact.phone_secondary;
    website = or_empty scan.contact.website;
    street = or_empty scan.contact.street;
    postal_code = or_empty scan.contact.postal_code;
    city = or_empty scan.contact.city;
    country = or_empty scan.contact.country;
    notes = or_empty scan.contact.notes;
    company = first_choice scan.match_id scan.organization;
    organization_id = scan.match_id;
    org_name = of_company name_of scan.organization;
    org_domain = of_company_or (λ o. o.domain) (host_of scan.contact.website) scan.organization;
    org_email = of_company (λ o. o.email) scan.organization;
    org_phone = of_company (λ o. o.phone) scan.organization;
    org_address = of_company_or (λ o. o.address) (address_of scan.contact) scan.organization;
  }
