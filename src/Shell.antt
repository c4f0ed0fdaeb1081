-- ===== src/Shell.antt =====
-- What the application does about a failed query: frontend-next/src/main.tsx. The tries of a query are
-- TanStack Query's: it asks `retry` after each failure, with the number of failures before that one.
-- `outcome n` is what the try of that number, from 0, throws, or `none` where it succeeds.
pub mod Tries
mod Tests
use tiny_crm.Prelude.{
  ℕ, zero, suc, ◌+◌, Bool, true, false, ◌&&◌, not, Option, none, some, Text, codes, text_eq, ltb,
  leb, ◌==◌, if◌then◌else◌,
}
use tiny_crm.Editing.{Failure, api_error, other_error}

abbrev pub is_client_error : Failure → Bool
is_client_error (api_error status message) = leb 400 status && ltb status 500
is_client_error (other_error message) = false

-- `retry`.
unfoldable pub retry : ℕ → Failure → Bool
retry failure_count err = not (is_client_error err) && ltb failure_count 3

-- The way to the login page, and back to where the user was.
pub record Navigation : Type 0 where
  pub to : Text
  pub redirect : Text

abbrev pub is_401 : Failure → Bool
is_401 (api_error status message) = status == 401
is_401 (other_error message) = false

-- `onAuthError`, at a page's path and address.
unfoldable pub on_auth_error : Failure → Text → Text → Option Navigation
on_auth_error err pathname href =
    if not (is_401 err)
    then none
    else if text_eq pathname (codes "/login")
    then none
    else some (record { to = codes "/login"; redirect = href })

module _ (outcome : ℕ → Option Failure) where
  abbrev pub after_try : ℕ → Option Failure → Option ℕ → Option ℕ
  after_try n none later = some n
  after_try n (some err) later = if retry n err then later else some n

  -- The number of the last try, from the try of number `n`; `none` when the fuel is used up.
  unfoldable pub last_try : ℕ → ℕ → Option ℕ
  last_try zero n = none
  last_try (suc fuel) n = after_try n (outcome n) (last_try fuel (n + 1))
