-- ===== src/Client/Session.antt =====
-- When the tokens go: frontend-next/src/api/client.ts, `renew` and `onResponse`.
use tiny_crm.Prelude.{
  ℕ, ◌≡◌, refl, ap, inl, inr, ◌⊎◌, Bool, true, false, not, ◌&&◌, Option, none, some, arith, Text,
  text_eq, text_eq_iff, ◌==◌, Bool-cases,
}
use tiny_crm.Token.{Tokens, Storage, get_refresh_token, set_tokens}
use tiny_crm.Client.{
  Reply, granted, denied, lost, renewed_storage, denied_storage, Event, reply, response, other_tab,
}

denied_storage-none :
    (status : ℕ) (token : Text) (o : Option Text) (s : Storage)
    → get_refresh_token s ≡ o
    → get_refresh_token (denied_storage status token o s) ≡ none
    → (get_refresh_token s ≡ none)
      ⊎ ((denied status ≡ denied 401) × (get_refresh_token s ≡ some token))
denied_storage-none status token none s o e = inl e
denied_storage-none status token (some current) s o e =
    elim (Bool-cases (status == 401 && text_eq current token)) [
      | inl k ↦
          let n : status ≡ 401 = ground arith in
          let same : current ≡ token = (text_eq_iff current token).0 (ground arith) in
          inr (ap denied n, rw same at o)
      | inr k ↦ inl (rw k at e)
    ]

set_tokens-stored :
    (pair : Tokens) (s : Storage)
    → (get_refresh_token (set_tokens pair s) ≡ none)
    → get_refresh_token s ≡ none
unfolding set_tokens get_refresh_token
set_tokens-stored pair s e = ground arith

-- A refresh loses the tokens only if the server refuses it with 401 while the refused token is
-- still the stored one: not for any other answer, and not if another tab has stored a newer pair.
pub renewed_storage-none :
    (token : Text) (r : Reply) (s : Storage)
    → get_refresh_token (renewed_storage (some token) r s) ≡ none
    → (get_refresh_token s ≡ none) ⊎ ((r ≡ denied 401) × (get_refresh_token s ≡ some token))
unfolding renewed_storage
renewed_storage-none token (granted pair) s e = inl (set_tokens-stored pair s e)
renewed_storage-none token (denied status) s e =
    denied_storage-none status token (get_refresh_token s) s refl e
renewed_storage-none token lost s e = inl e

-- Both tokens are stored.
pub record HasSession (s : Storage) : Type 0 where
  pub open_storage : s.blocked ≡ false
  pub has_access : (a : Text) × (s.access ≡ some a)
  pub has_refresh : (a : Text) × (s.refresh ≡ some a)

-- Events without a 401, and without a write from outside the middleware.
abbrev pub is_calm : Event → Bool
is_calm (reply n (denied status)) = not (status == 401)
is_calm (response i status) = not (status == 401)
is_calm (other_tab s) = false
is_calm _ = true

set_tokens-HasSession :
    (pair : Tokens) (s : Storage) → HasSession s → HasSession (set_tokens pair s)
unfolding set_tokens
set_tokens-HasSession pair s h =
    let e = h.open_storage in
    simp e (record {
      open_storage = refl;
      has_access = (pair.access_token, refl);
      has_refresh = (pair.refresh_token, refl);
    })

refused_softly :
    (status : ℕ) (token : Text) (o : Option Text) (s : Storage)
    → (status == 401) ≡ false
    → HasSession s
    → HasSession (denied_storage status token o s)
refused_softly status token none s c h = h
refused_softly status token (some current) s c h = rw c h

pub renewed_storage-HasSession :
    (token : Option Text) (r : Reply) (s : Storage)
    → (n : ℕ) → is_calm (reply n r) ≡ true
    → HasSession s
    → HasSession (renewed_storage token r s)
unfolding renewed_storage
renewed_storage-HasSession none r s n c h = h
renewed_storage-HasSession (some token) (granted pair) s n c h = set_tokens-HasSession pair s h
renewed_storage-HasSession (some token) (denied status) s n c h =
    refused_softly status token (get_refresh_token s) s (ground arith) h
renewed_storage-HasSession (some token) lost s n c h = h
