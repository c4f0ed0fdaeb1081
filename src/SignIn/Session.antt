-- ===== src/SignIn/Session.antt =====
-- Where a sign-in leads, and what a sign-out leaves (frontend-next/src/routes/login.tsx, auth.ts).
use tiny_crm.Prelude.{
  false-ne-true, ◌≢◌, arith, ◌≡◌, refl, ap, ◌⊎◌, inl, inr, true, false, Option, none, some, List,
  [], ◌∷◌, Text, is_some, Bool-cases, starts_with,
}
use tiny_crm.Token.{Tokens, Storage, get_token, set_tokens, clear_tokens}
use tiny_crm.Editing.{Failure}
use tiny_crm.Shell.{is_401}
use tiny_crm.SignIn.{
  is_same_app, kept_redirect, or_home, place_for, LoginPage, LoginEvent, session, challenged,
  denied, verified, refused, open_login, signed_in, login_step, login_run, to_login, guard, logout,
}

abbrev pub IsKept : Option Text → Type 0
IsKept none = Unit
IsKept (some s) = is_same_app s ≡ true

-- One `/` at the start, and not two: a path of the application, whatever host serves it.
abbrev pub IsPath : Text → Type 0
IsPath [] = ⊥
IsPath (c ∷ []) = c ≡ b'/'
IsPath (c ∷ d ∷ s) = (c ≡ b'/') × (d ≢ b'/')

IsPath-is_same_app : (s : Text) → is_same_app s ≡ true → IsPath s
unfolding is_same_app starts_with
IsPath-is_same_app [] h = absurd (false-ne-true h)
IsPath-is_same_app (c ∷ []) h = ground (arith, h)
IsPath-is_same_app (c ∷ d ∷ s) h = (ground (arith, h), λ e. ground (arith, h, e))

-- A page that has led somewhere has led within the application, with a token in a storage that takes one.
abbrev pub IsPlaced : Storage → Option Text → Type 0
IsPlaced s none = Unit
IsPlaced s (some path) = IsPath path × ((s.blocked ≡ true) ⊎ (is_some (get_token s) ≡ true))

pub record IsSafe (p : LoginPage) : Type 0 where
  pub redirect : IsKept p.redirect
  pub place : IsPlaced p.storage p.place

IsKept-redirect : (s : Option Text) → IsKept (kept_redirect s)
IsKept-redirect none = tt
IsKept-redirect (some s) = elim (Bool-cases (is_same_app s)) [ inl e ↦ rw e e | inr e ↦ rw e tt ]

home-IsKept : (r : Option Text) → IsKept r → is_same_app (or_home r) ≡ true
unfolding is_same_app starts_with
home-IsKept none h = refl
home-IsKept (some s) h = h

token-set :
    (t : Tokens) (s : Storage)
    → ((set_tokens t s).blocked ≡ true) ⊎ (is_some (get_token (set_tokens t s)) ≡ true)
unfolding set_tokens get_token
token-set t s = elim (Bool-cases s.blocked) [ inl e ↦ inl (rw e) | inr e ↦ inr (rw e) ]

open_login-IsSafe : (s : Storage) (search : Option Text) → IsSafe (open_login s search)
unfolding open_login
open_login-IsSafe s search = record {
  redirect = IsKept-redirect search;
  place = placed (get_token s) refl;
}
  where
    placed : (o : Option Text) → get_token s ≡ o → IsPlaced s (place_for o (kept_redirect search))
    placed none e = tt
    placed (some []) e = tt
    placed (some (c ∷ token)) e = (
      IsPath-is_same_app _ (home-IsKept (kept_redirect search) (IsKept-redirect search)),
      inr (ap is_some e),
    )

signed_in-IsSafe : (t : Tokens) (p : LoginPage) → IsSafe p → IsSafe (signed_in t p)
signed_in-IsSafe t p h = record {
  redirect = h.redirect;
  place = (
    IsPath-is_same_app (or_home p.redirect) (home-IsKept p.redirect h.redirect),
    token-set t p.storage,
  );
}

login_step-IsSafe : (e : LoginEvent) (p : LoginPage) → IsSafe p → IsSafe (login_step e p)
unfolding login_step
login_step-IsSafe (session t) p h = signed_in-IsSafe t p h
login_step-IsSafe (challenged mfa) p h = record { redirect = h.redirect; place = h.place }
login_step-IsSafe (denied err) p h = h
login_step-IsSafe (verified t) p h = signed_in-IsSafe t p h
login_step-IsSafe (refused err) p h = elim (Bool-cases (is_401 err)) [
  | inl e ↦ rw e (record { redirect = h.redirect; place = h.place })
  | inr e ↦ rw e h
]

run-IsSafe : (es : List LoginEvent) (p : LoginPage) → IsSafe p → IsSafe (login_run es p)
unfolding login_run
run-IsSafe [] p h = h
run-IsSafe (e ∷ es) p h = run-IsSafe es (login_step e p) (login_step-IsSafe e p h)

-- Whatever address stands in `redirect` and whatever the API answers: the login page leads nowhere but
-- to a path of the application, one `/` and not two at its start, and only when a token is stored or the
-- storage is blocked.
pub login_run-IsSafe :
    (s : Storage) (search : Option Text) (es : List LoginEvent)
    → IsSafe (login_run es (open_login s search))
login_run-IsSafe s search es = run-IsSafe es (open_login s search) (open_login-IsSafe s search)

-- The login page, opened from an address, after a password that is right, a challenge and its code.
abbrev pub after_sign_in : Storage → Text → Tokens → Text → LoginPage
after_sign_in s href t mfa = login_run (challenged mfa ∷ verified t ∷ []) (open_login s (some href))

-- A visitor without a token is sent to sign in from a page of the application, where the storage is not
-- blocked; the password and the code that a challenge asks for lead back to that page with the new
-- access token; and after a sign-out the guard sends the visitor to sign in again.
pub guard-after_sign_in :
    (s : Storage) (href : Text) (me : Option Failure) (t : Tokens) (mfa : Text)
    → s.blocked ≡ false
    → s.access ≡ none
    → is_same_app href ≡ true
    → ((guard s href me).outcome ≡ to_login href)
      × ((after_sign_in s href t mfa).place ≡ some href)
      × (get_token (after_sign_in s href t mfa).storage ≡ some t.access_token)
      × ((guard (logout (after_sign_in s href t mfa).storage).storage href me).outcome
          ≡ to_login href)
unfolding login_run login_step open_login guard logout get_token set_tokens clear_tokens
guard-after_sign_in s href me t mfa b a k = (rw (b, a), rw k, rw b, rw b)
