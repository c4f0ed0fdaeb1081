-- ===== src/Triage/Converts.antt =====
-- What the form of a capture sends (frontend-next/src/routes/_authed/inbox/$captureId.tsx).
use tiny_crm.Prelude.{
  ◌∷◌, ◌≡◌, refl, subst, Bool, true, false, ◌||◌, not, Option, none, some, [], Text, codes, truthy,
  if◌then◌else◌,
}
use tiny_crm.Forms.{or_null}
use tiny_crm.Forms.Fields.{AllPass, when_valid-some}
use tiny_crm.Triage.{
  Values, Mode, create, existing, Who, known, person, who_of, Message, CaptureConvert, is_new,
  is_picked, trimmed, checks, to_body, submit,
}

module _ (is_email : Text → Bool) where
  abbrev pub IsAddress : Option Text → Type 0
  IsAddress none = Unit
  IsAddress (some t) = is_email t ≡ true

  -- A contact that is known is named by its id; a new one has a name, is a lead, and has no address
  -- that is not one.
  abbrev pub IsWho : Who → Type 0
  IsWho (known id) = is_picked id ≡ true
  IsWho (person p) =
      (truthy p.name ≡ true) × IsAddress p.email × (p.lifecycle_status ≡ codes "lead")

  abbrev pub IsTitled : Option Text → Type 0
  IsTitled none = Unit
  IsTitled (some t) = truthy t ≡ true

  abbrev pub IsLogged : Option Message → Type 0
  IsLogged none = Unit
  IsLogged (some m) = truthy m.subject ≡ true

  pub record IsConvert (b : CaptureConvert) : Type 0 where
    pub who : IsWho b.who
    pub deal : IsTitled b.deal
    pub interaction : IsLogged b.interaction

  IsAddress-or_null : (t : Text) → (not (truthy t) || is_email t) ≡ true → IsAddress (or_null t)
  IsAddress-or_null [] h = tt
  IsAddress-or_null (c ∷ s) h = h

  who_of-IsWho :
      (v : Values) (m : Mode)
      → (not (is_new m) || truthy v.name) ≡ true
      → (not (is_new m) || not (truthy v.email) || is_email v.email) ≡ true
      → (is_new m || is_picked v.contact_id) ≡ true
      → IsWho (who_of v m)
  who_of-IsWho v create name email picked = (name, IsAddress-or_null v.email email, refl)
  who_of-IsWho v existing name email picked = picked

  deal-IsTitled :
      (b : Bool) (t : Text) → (not b || truthy t) ≡ true → IsTitled (if b then some t else none)
  deal-IsTitled true t h = h
  deal-IsTitled false t h = tt

  message-IsLogged :
      (b : Bool) (m : Message)
      → (not b || truthy m.subject) ≡ true
      → IsLogged (if b then some m else none)
  message-IsLogged true m h = h
  message-IsLogged false m h = tt

  to_body-IsConvert : (v : Values) → AllPass (checks is_email v) → IsConvert (to_body v)
  unfolding checks to_body
  to_body-IsConvert v (name, (email, (picked, (deal, (subject, _))))) = record {
    who = who_of-IsWho v v.mode name email picked;
    deal = deal-IsTitled v.open_deal v.deal_title deal;
    interaction = message-IsLogged v.log_message _ subject;
  }

  -- Whatever is typed and chosen: a capture that is handed on to be converted names a contact that is
  -- known, or a new lead with a name and no address that is not one; a deal has a title, and a message
  -- a subject.
  pub submit-IsConvert :
      (v : Values) (b : CaptureConvert) → submit is_email v ≡ some b → IsConvert b
  unfolding submit
  submit-IsConvert v b h =
      let (valid, same) = when_valid-some (checks is_email (trimmed v)) (to_body (trimmed v)) b h in
      subst IsConvert same (to_body-IsConvert (trimmed v) valid)
