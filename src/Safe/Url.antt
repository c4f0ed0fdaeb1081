-- ===== src/Safe/Url.antt =====
-- Links that are opened: `safeUrl` of frontend-next/src/watches.ts.
use tiny_crm.Prelude.{
  false-ne-true, ℕ, ◌≡◌, refl, inl, inr, true, false, Bool-cases, [], ◌∷◌, ◌++◌, Text, codes,
  starts_with, some, all,
}
use tiny_crm.Safe.{is_http, safe_url, after_scheme, without_scheme, is_letter}

is_http_of_https : (s : Text) → is_http (codes "https://" ++ s) ≡ true
unfolding is_http starts_with
is_http_of_https s = refl

-- Whatever the text, the link that is opened starts with http:// or https://, in letters of either
-- case.
pub safe_url-is_http : (url : Text) → is_http (safe_url url) ≡ true
unfolding safe_url
safe_url-is_http url = elim (Bool-cases (is_http url)) [
  | inl e ↦ rw e e
  | inr e ↦ rw e (is_http_of_https (without_scheme url))
]

safe_url_of_http : (url : Text) → is_http url ≡ true → safe_url url ≡ url
unfolding safe_url
safe_url_of_http url e = rw e

-- A link that is safe already is left as it is, so making it safe twice changes nothing more.
pub safe_url_idem : (url : Text) → safe_url (safe_url url) ≡ safe_url url
safe_url_idem url = safe_url_of_http (safe_url url) (safe_url-is_http url)

after_scheme_of_letters :
    (letters rest : Text)
    → all is_letter letters ≡ true
    → after_scheme true (letters ++ (b':' ∷ rest)) ≡ some rest
unfolding after_scheme
after_scheme_of_letters [] rest h = refl
after_scheme_of_letters (c ∷ letters) rest h = elim (Bool-cases (is_letter c)) [
  | inl e ↦ rw e (after_scheme_of_letters letters rest (rw e at h))
  | inr e ↦ absurd (false-ne-true (rw e at h))
]

-- Another scheme of ASCII letters is cut off, and the rest is opened over https.
pub safe_url-other_scheme :
    (c : ℕ) (letters rest : Text)
    → all is_letter (c ∷ letters) ≡ true
    → is_http ((c ∷ letters) ++ (b':' ∷ rest)) ≡ false
    → safe_url ((c ∷ letters) ++ (b':' ∷ rest)) ≡ codes "https://" ++ rest
unfolding safe_url without_scheme after_scheme
safe_url-other_scheme c letters rest h n = elim (Bool-cases (is_letter c)) [
  | inl e ↦ rw n (rw e (rw (after_scheme_of_letters letters rest (rw e at h))))
  | inr e ↦ absurd (false-ne-true (rw e at h))
]
