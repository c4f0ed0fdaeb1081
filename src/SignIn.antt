-- ===== src/SignIn.antt =====
-- Signing in and out: frontend-next/src/auth.ts, routes/login.tsx and the guard of routes/_authed.tsx.
-- The answers of the API are events; a challenge is its `mfa_token`.
pub mod Session
mod Tests
use tiny_crm.Prelude.{
  Bool, true, false, ◌&&◌, not, Option, none, some, List, [], ◌∷◌, ◌++◌, Text, codes, starts_with,
  truthy, trim, nat_text, ◌==◌, if◌then◌else◌,
}
use tiny_crm.Token.{Tokens, Storage, get_token, get_refresh_token, set_tokens, clear_tokens}
use tiny_crm.Editing.{Failure, api_error, other_error}
use tiny_crm.Shell.{is_401}

-- `searchSchema`: only same-app paths, and `undefined` for anything else.
unfoldable pub is_same_app : Text → Bool
is_same_app s = starts_with s (codes "/") && not (starts_with s (codes "//"))

abbrev pub kept_redirect : Option Text → Option Text
kept_redirect none = none
kept_redirect (some s) = if is_same_app s then some s else none

-- `search.redirect ?? '/'`.
abbrev pub or_home : Option Text → Text
or_home none = codes "/"
or_home (some s) = s

-- `errorText` and `codeErrorText`.
abbrev pub error_text : Failure → Text
error_text (other_error message) = codes "Cannot reach the server."
error_text (api_error status message) =
    if status == 400
    then codes "Invalid credentials."
    else if status == 429
    then message
    else codes "Login failed (" ++ nat_text status ++ codes ")."

abbrev pub code_error_text : Failure → Bool → Text
code_error_text (other_error message) recovery = codes "Cannot reach the server."
code_error_text (api_error status message) recovery =
    if status == 400
    then (if recovery
        then codes "That recovery code is not valid."
        else codes "That code is not correct.")
    else if status == 429
    then message
    else codes "Sign-in failed (" ++ nat_text status ++ codes ")."

-- `LoginPage`, its storage, and where it has led.
pub record LoginPage : Type 0 where
  pub storage : Storage
  pub redirect : Option Text
  pub challenge : Option Text
  pub expired : Bool
  pub place : Option Text

-- What `login` and `verifyMfa` answer or throw.
pub data LoginEvent : Type 0 where
  session : Tokens → LoginEvent
  challenged : Text → LoginEvent
  denied : Failure → LoginEvent
  verified : Tokens → LoginEvent
  refused : Failure → LoginEvent

-- `beforeLoad` of the page.
abbrev pub place_for : Option Text → Option Text → Option Text
place_for none redirect = none
place_for (some []) redirect = none
place_for (some (c ∷ token)) redirect = some (or_home redirect)

unfoldable pub open_login : Storage → Option Text → LoginPage
open_login s search = record {
  storage = s;
  redirect = kept_redirect search;
  challenge = none;
  expired = false;
  place = place_for (get_token s) (kept_redirect search);
}

-- `signedIn`.
abbrev pub signed_in : Tokens → LoginPage → LoginPage
signed_in t p = record p { storage = set_tokens t p.storage; place = some (or_home p.redirect) }

unfoldable pub login_step : LoginEvent → LoginPage → LoginPage
login_step (session t) p = signed_in t p
login_step (challenged mfa_token) p = record p { expired = false; challenge = some mfa_token }
login_step (denied err) p = p
login_step (verified t) p = signed_in t p
login_step (refused err) p = if is_401 err then record p { challenge = none; expired = true } else p

unfoldable pub login_run : List LoginEvent → LoginPage → LoginPage
login_run [] p = p
login_run (e ∷ es) p = login_run es (login_step e p)

-- What the guard of the pages behind the login does: nothing, the way to the login page, or an error.
pub data Guarded : Type 0 where
  pass : Guarded
  to_login : Text → Guarded
  broken : Failure → Guarded

pub record GuardResult : Type 0 where
  pub storage : Storage
  pub outcome : Guarded

abbrev pub after_me : Storage → Text → Option Failure → GuardResult
after_me s href none = record { storage = s; outcome = pass }
after_me s href (some err) =
    if is_401 err
    then record { storage = clear_tokens s; outcome = to_login href }
    else record { storage = s; outcome = broken err }

abbrev pub guard_with : Option Text → Storage → Text → Option Failure → GuardResult
guard_with none s href me = record { storage = s; outcome = to_login href }
guard_with (some []) s href me = record { storage = s; outcome = to_login href }
guard_with (some (c ∷ token)) s href me = after_me s href me

-- `beforeLoad` of `/_authed`, at an address, with what the query `me` throws.
unfoldable pub guard : Storage → Text → Option Failure → GuardResult
guard s href me = guard_with (get_token s) s href me

-- `logout`: the storage after it, and the refresh token that is sent, if one is.
pub record Logout : Type 0 where
  pub storage : Storage
  pub sends : Option Text

abbrev pub filled_token : Option Text → Option Text
filled_token none = none
filled_token (some t) = if truthy t then some t else none

unfoldable pub logout : Storage → Logout
logout s = record { storage = clear_tokens s; sends = filled_token (get_refresh_token s) }
