-- ===== src/Forms/Contact/Unchanged.antt =====
-- A contact that is opened in its form and saved as it is (frontend-next/src/components/ContactForm.tsx).
use tiny_crm.Prelude.{
  ℕ, ◌≡◌, ◌∙◌, refl, ap, Bool, true, false, ◌&&◌, ◌||◌, not, Option, none, some, [], ◌∷◌, Text,
  codes, truthy, trim, length, all, All, arith, leb, if◌then◌else◌, false-ne-true, Solid, is_space,
  trim_of_Solid,
}
use tiny_crm.Safe.{lower_text, is_letter}
use tiny_crm.Format.Tags.{IsTag, join_tags, split_tags-join_tags, trim-join_tags}
use tiny_crm.Forms.{when_valid, failing, or_null, or_empty, if_given, is_letters, upper_text}
use tiny_crm.Forms.Fields.{
  AllPass, failing_of_AllPass, IsClean, or_null-or_empty_untrimmed, trim-or_empty, trim_nil,
  is_capital, upper_text_of_capitals, letters_of_capitals, capitals-Solid, capital_letters,
}
use tiny_crm.Forms.Amounts.{IsDecimal, Decimal, amount_kept, IsDecimal-truthy}
use tiny_crm.Forms.Contact.{
  ContactCreate, trimmed, pattern_or_empty, answer_value, answer_of, to_body, or_euro, to_defaults,
  checks, submit,
}

abbrev pub is_small : ℕ → Bool
is_small c = leb b'a' c && leb c b'z'

-- A code of `n` capitals, or of small letters, if there is one.
abbrev pub Capitals : ℕ → Option Text → Type 0
Capitals n none = Unit
Capitals n (some t) = (truthy t ≡ true) × (length t ≡ n) × (all is_capital t ≡ true)

abbrev pub Smalls : ℕ → Option Text → Type 0
Smalls n none = Unit
Smalls n (some t) = (truthy t ≡ true) × (length t ≡ n) × (all is_small t ≡ true)

smalls_letters : (s : Text) → all is_small s ≡ true → all is_letter s ≡ true
smalls_letters [] h = refl
smalls_letters (c ∷ s) h = ground (arith, smalls_letters s)

smalls-Solid : (s : Text) → all is_small s ≡ true → Solid s
unfolding is_space
smalls-Solid [] h = tt
smalls-Solid (c ∷ s) h = ground (arith, smalls-Solid s)

lower_text_of_smalls : (s : Text) → all is_small s ≡ true → lower_text s ≡ s
lower_text_of_smalls [] h = refl
lower_text_of_smalls (c ∷ s) h = ground (arith, lower_text_of_smalls s)

letters_test : (n : ℕ) (s : Text) → length s ≡ n → all is_letter s ≡ true → is_letters n s ≡ true
unfolding is_letters
letters_test n s e h = ground (arith, e, h)

upper_code_kept :
    (n : ℕ) (o : Option Text)
    → Capitals n o
    → (trim (or_empty o) ≡ or_empty o)
      × (pattern_or_empty (is_letters n) (or_empty o) ≡ true)
      × (if_given upper_text (or_empty o) ≡ o)
upper_code_kept n none h = (trim_nil, refl, refl)
upper_code_kept n (some []) h = absurd (false-ne-true h.0)
upper_code_kept n (some (c ∷ s)) h = (
  trim_of_Solid (c ∷ s) (capitals-Solid (c ∷ s) h.2),
  letters_test n (c ∷ s) h.1 (letters_of_capitals (c ∷ s) h.2),
  ap some (upper_text_of_capitals (c ∷ s) h.2),
)

lower_code_kept :
    (n : ℕ) (o : Option Text)
    → Smalls n o
    → (trim (or_empty o) ≡ or_empty o)
      × (pattern_or_empty (is_letters n) (or_empty o) ≡ true)
      × (if_given lower_text (or_empty o) ≡ o)
lower_code_kept n none h = (trim_nil, refl, refl)
lower_code_kept n (some []) h = absurd (false-ne-true h.0)
lower_code_kept n (some (c ∷ s)) h = (
  trim_of_Solid (c ∷ s) (smalls-Solid (c ∷ s) h.2),
  letters_test n (c ∷ s) h.1 (smalls_letters (c ∷ s) h.2),
  ap some (lower_text_of_smalls (c ∷ s) h.2),
)

-- A rate stands with its currency, and neither without the other.
abbrev pub IsRate : Option Text → Option Text → Type 0
IsRate none none = Unit
IsRate none (some c) = ⊥
IsRate (some r) none = ⊥
IsRate (some r) (some c) = IsDecimal r × (length c ≡ 3) × (all is_capital c ≡ true)

rate_kept :
    (r c : Option Text)
    → IsRate r c
    → Decimal r
      × (trim (or_euro c) ≡ or_euro c)
      × ((not (truthy (or_empty r)) || is_letters 3 (or_euro c)) ≡ true)
      × ((if truthy (or_empty r) then some (upper_text (or_euro c)) else none) ≡ c)
unfolding is_space
rate_kept none none h = (tt, trim_of_Solid (codes "EUR") (refl, (refl, (refl, tt))), refl, refl)
rate_kept none (some c) h = absurd h
rate_kept (some r) none h = absurd h
rate_kept (some r) (some c) h =
    let three = capital_letters c (h.1, h.2) in
    (
      h.0,
      trim_of_Solid c (capitals-Solid c h.2),
      rw (IsDecimal-truthy r h.0) three,
      rw (IsDecimal-truthy r h.0) (ap some (upper_text_of_capitals c h.2)),
    )

answer_kept : (o : Option Bool) → answer_value (answer_of o) ≡ o
answer_kept none = refl
answer_kept (some true) = refl
answer_kept (some false) = refl

module _ (is_email : Text → Bool) where
  abbrev pub IsEmail : Option Text → Type 0
  IsEmail none = Unit
  IsEmail (some t) = (truthy t ≡ true) × (trim t ≡ t) × (is_email t ≡ true)

  email_kept :
      (o : Option Text)
      → IsEmail o
      → (trim (or_empty o) ≡ or_empty o)
        × (pattern_or_empty is_email (or_empty o) ≡ true)
        × (or_null (or_empty o) ≡ o)
  email_kept none h = (trim_nil, refl, refl)
  email_kept (some []) h = absurd (false-ne-true h.0)
  email_kept (some (c ∷ s)) h = (h.1, h.2, refl)

  -- What a contact must be for its form to keep it; the API stores others too.
  pub record IsStored (c : ContactCreate) : Type 0 where
    pub name : IsClean (some c.name)
    pub job_title : IsClean c.job_title
    pub email : IsEmail c.email
    pub email_secondary : IsEmail c.email_secondary
    pub phone : IsClean c.phone
    pub phone_secondary : IsClean c.phone_secondary
    pub website : IsClean c.website
    pub street : IsClean c.street
    pub postal_code : IsClean c.postal_code
    pub city : IsClean c.city
    pub country : Capitals 2 c.country
    pub rate : IsRate c.known_day_rate c.rate_currency
    pub preferred_language : Smalls 2 c.preferred_language
    pub birthday : IsClean c.birthday
    pub tags : All IsTag c.tags
    pub notes : IsClean c.notes

  module _ (c : ContactCreate) (h : IsStored c) (organization : Option Text) where
    trimmed-to_defaults :
        trimmed (to_defaults (some c) organization) ≡ to_defaults (some c) organization
    unfolding trimmed to_defaults join_tags
    trimmed-to_defaults = rw h.name.1 (
        rw (trim-or_empty c.job_title h.job_title) (
          rw (email_kept c.email h.email).0 (
            rw (email_kept c.email_secondary h.email_secondary).0 (
              rw (trim-or_empty c.phone h.phone) (
                rw (trim-or_empty c.phone_secondary h.phone_secondary) (
                  rw (trim-or_empty c.website h.website) (
                    rw (trim-or_empty c.street h.street) (
                      rw (trim-or_empty c.postal_code h.postal_code) (
                        rw (trim-or_empty c.city h.city) (
                          rw (upper_code_kept 2 c.country h.country).0 (
                            rw
                              (amount_kept c.known_day_rate
                                (rate_kept c.known_day_rate c.rate_currency h.rate).0).0
                              (rw (rate_kept c.known_day_rate c.rate_currency h.rate).1 (
                                rw (lower_code_kept 2 c.preferred_language h.preferred_language).0 (
                                  rw (trim-join_tags c.tags h.tags)
                                    (rw (trim-or_empty c.notes h.notes))))))))))))))))

    AllPass-to_defaults : AllPass (checks is_email (to_defaults (some c) organization))
    unfolding checks to_defaults
    AllPass-to_defaults =
        let (rate, _, currency, _) = rate_kept c.known_day_rate c.rate_currency h.rate in
        (
          h.name.0,
          (
            (email_kept c.email h.email).1,
            (
              (email_kept c.email_secondary h.email_secondary).1,
              (
                (upper_code_kept 2 c.country h.country).1,
                (
                  (amount_kept c.known_day_rate rate).1,
                  ((lower_code_kept 2 c.preferred_language h.preferred_language).1, (currency, tt)),
                ),
              ),
            ),
          ),
        )

    to_body-to_defaults : to_body (to_defaults (some c) organization) ≡ c
    unfolding to_body to_defaults join_tags
    to_body-to_defaults =
        let (rate, _, _, currency) = rate_kept c.known_day_rate c.rate_currency h.rate in
        rw (or_null-or_empty_untrimmed c.job_title h.job_title) (
          rw (email_kept c.email h.email).2 (
            rw (email_kept c.email_secondary h.email_secondary).2 (
              rw (or_null-or_empty_untrimmed c.phone h.phone) (
                rw (or_null-or_empty_untrimmed c.phone_secondary h.phone_secondary) (
                  rw (or_null-or_empty_untrimmed c.website h.website) (
                    rw (or_null-or_empty_untrimmed c.street h.street) (
                      rw (or_null-or_empty_untrimmed c.postal_code h.postal_code) (
                        rw (or_null-or_empty_untrimmed c.city h.city) (
                          rw (upper_code_kept 2 c.country h.country).2 (
                            rw (answer_kept c.works_with_freelancers) (
                              rw (amount_kept c.known_day_rate rate).2 (
                                rw currency (
                                  rw (lower_code_kept 2 c.preferred_language h.preferred_language).2
                                    (rw (or_null-or_empty_untrimmed c.birthday h.birthday) (
                                      rw (split_tags-join_tags c.tags h.tags) (
                                        rw (
                                          or_null-or_empty_untrimmed c.notes
                                            h.notes)))))))))))))))))

    -- If none of the texts of a stored contact that there is is empty or has spaces around it, its addresses
    -- of e-mail pass the form's check, its country is two capitals and its language two small
    -- letters, its rate is a decimal as the form takes it and stands just with a currency of three
    -- capitals, and its tags are trimmed, not blank and without a comma: then the form that is opened
    -- with it and saved as it stands sends exactly what was stored, its tags, its rate and its
    -- "never asked" included.
    pub contact_unchanged : submit is_email (to_defaults (some c) organization) ≡ some c
    unfolding submit
    contact_unchanged =
        let v = to_defaults (some c) organization in
        ap (λ w. when_valid (failing (checks is_email w)) (to_body w)) trimmed-to_defaults
        ∙ ap (λ l. when_valid l (to_body v))
            (failing_of_AllPass (checks is_email v) AllPass-to_defaults)
        ∙ ap some to_body-to_defaults
