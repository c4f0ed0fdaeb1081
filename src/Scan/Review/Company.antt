-- ===== src/Scan/Review/Company.antt =====
-- What the review of a card sends, and what of the company it leaves out (CardReview of
-- frontend-next/src/routes/_authed/contacts/scan.tsx).
use tiny_crm.Prelude.{
  if◌then◌else◌, ◌≡◌, refl, subst, Bool, true, false, ◌&&◌, ◌||◌, not, Option, none, some, [], ◌∷◌,
  Text, truthy, trim, trim_idem, length, all, arith, is_some,
}
use tiny_crm.Forms.{or_null, if_given, is_letters, upper_text}
use tiny_crm.Forms.Fields.{all-is_capital, length-upper_text, AllPass, when_valid-some, is_capital}
use tiny_crm.Scan.Review.Defaults.{to_defaults}
use tiny_crm.Scan.Review.{
  email_or_empty, is_existing, is_new, organization_body, CompanyChoice, existing, new, no_company,
  Values, ImportOrganization, BusinessCardImport, BusinessCardScan, trimmed, to_body, checks,
  submit, is_given,
}

-- The values that the page shows: the fields of a new company, and the picker of one on file, are hidden
-- where they do not apply.
shown_at : CompanyChoice → Values → Values
shown_at existing v = record v {
  org_name = [];
  org_domain = [];
  org_email = [];
  org_phone = [];
  org_address = [];
}
shown_at new v = record v { organization_id = none }
shown_at no_company v = record v {
  organization_id = none;
  org_name = [];
  org_domain = [];
  org_email = [];
  org_phone = [];
  org_address = [];
}

abbrev pub shown : Values → Values
unfolding shown_at
shown v = shown_at v.company v

module _ (is_email : Text → Bool) where
  at_choice :
      (c : CompanyChoice) (v : Values)
      → submit is_email (shown_at c (record v { company = c }))
        ≡ submit is_email (record v { company = c })
  unfolding submit shown_at trimmed checks to_body
  at_choice existing v = refl
  at_choice new v = refl
  at_choice no_company v = refl

  -- A field that the page hides is not sent, and does not block the save.
  pub submit-shown : (v : Values) → submit is_email (shown v) ≡ submit is_email v
  unfolding shown
  submit-shown v = at_choice v.company v

-- Two capitals, if there is a country.
abbrev pub IsCountry : Option Text → Type 0
IsCountry none = Unit
IsCountry (some c) = (length c ≡ 2) × (all is_capital c ≡ true)

module _ (is_email : Text → Bool) where
  abbrev pub IsAddress : Option Text → Type 0
  IsAddress none = Unit
  IsAddress (some t) = is_email t ≡ true

  -- A new company has a name, and an address of e-mail if it has any.
  abbrev pub IsCompany : Option ImportOrganization → Type 0
  IsCompany none = Unit
  IsCompany (some o) = (truthy o.name ≡ true) × IsAddress o.email

  pub record IsImport (b : BusinessCardImport) : Type 0 where
    pub name : truthy b.contact.name ≡ true
    pub name_kept : trim b.contact.name ≡ b.contact.name
    pub email : IsAddress b.contact.email
    pub email_secondary : IsAddress b.contact.email_secondary
    pub country : IsCountry b.contact.country
    pub one_company : (is_given b.contact.organization_id && is_some b.organization) ≡ false
    pub company : IsCompany b.organization

  -- What is sent of a company is what was chosen: one on file is linked, a new one comes along, or neither.
  abbrev pub IsChosen : CompanyChoice → BusinessCardImport → Type 0
  IsChosen c b =
      (is_given b.contact.organization_id ≡ is_existing c) × (is_some b.organization ≡ is_new c)

  email_sent : (t : Text) → (not (truthy t) || is_email t) ≡ true → IsAddress (or_null t)
  email_sent [] h = tt
  email_sent (c ∷ t) h = h

  IsCountry-sent :
      (t : Text) → (not (truthy t) || is_letters 2 t) ≡ true → IsCountry (if_given upper_text t)
  unfolding is_letters
  IsCountry-sent [] h = tt
  IsCountry-sent (c ∷ t) h = ground (arith, length-upper_text (c ∷ t), all-is_capital (c ∷ t))

  one_company_sent :
      (c : CompanyChoice) (id : Option Text) (o : ImportOrganization)
      → (is_given (if is_existing c then id else none)
          && is_some (if is_new c then some o else none))
        ≡ false
  one_company_sent existing id o = ground (arith, is_given id)
  one_company_sent new id o = refl
  one_company_sent no_company id o = refl

  choice_sent :
      (c : CompanyChoice) (id : Option Text) (o : ImportOrganization)
      → (not (is_existing c) || is_given id) ≡ true
      → (is_given (if is_existing c then id else none) ≡ is_existing c)
        × (is_some (if is_new c then some o else none) ≡ is_new c)
  choice_sent existing id o h = (h, refl)
  choice_sent new id o h = (refl, refl)
  choice_sent no_company id o h = (refl, refl)

  IsCompany-sent :
      (c : CompanyChoice) (v : Values)
      → (not (is_new c) || truthy v.org_name) ≡ true
      → (not (is_new c) || email_or_empty is_email v.org_email) ≡ true
      → IsCompany (if is_new c then some (organization_body v) else none)
  IsCompany-sent existing v n e = tt
  IsCompany-sent new v n e = (n, email_sent v.org_email e)
  IsCompany-sent no_company v n e = tt

  to_body-IsImport :
      (v : Values)
      → trim v.name ≡ v.name
      → AllPass (checks is_email v)
      → IsImport (to_body v) × IsChosen v.company (to_body v)
  unfolding checks to_body
  to_body-IsImport v kept (name, (email, (second, (country, (on_file, (company, (address, _))))))) =
      (
        record {
          name = name;
          name_kept = kept;
          email = email_sent v.email email;
          email_secondary = email_sent v.email_secondary second;
          country = IsCountry-sent v.country country;
          one_company = one_company_sent v.company v.organization_id (organization_body v);
          company = IsCompany-sent v.company v company address;
        },
        choice_sent v.company v.organization_id (organization_body v) on_file,
      )

  -- What is sent of a card that is saved: a named contact, whose addresses of e-mail are valid and
  -- whose country is two capitals; it is linked to a company on file just if that was chosen, comes with a
  -- new one just if that was chosen, so never with both, and a new one has a name and no address of
  -- e-mail that is not valid.
  pub submit-IsImport :
      (v : Values) (b : BusinessCardImport)
      → submit is_email v ≡ some b
      → IsImport b × IsChosen v.company b
  unfolding submit trimmed
  submit-IsImport v b h =
      let (valid, same) = when_valid-some (checks is_email (trimmed v)) (to_body (trimmed v)) b h in
      subst (λ x. IsImport x × IsChosen v.company x) same
        (to_body-IsImport (trimmed v) (trim_idem v.name) valid)

module _ (is_email : Text → Bool) (host : Text → Option Text) where
  -- A card whose company is on file, saved as it was read, links that company and makes no second one.
  pub match_wins :
      (scan : BusinessCardScan) (id : Text) (b : BusinessCardImport)
      → scan.match_id ≡ some id
      → submit is_email (to_defaults host scan) ≡ some b
      → (b.contact.organization_id ≡ some id) × (b.organization ≡ none)
  unfolding submit to_defaults to_body trimmed
  match_wins scan id b found h =
      let v = to_defaults host scan in
      let (_, same) = when_valid-some (checks is_email (trimmed v)) (to_body (trimmed v)) b h in
      subst (λ x. (x.contact.organization_id ≡ some id) × (x.organization ≡ none)) same
        (rw found (refl, refl))
