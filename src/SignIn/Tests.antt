-- ===== src/SignIn/Tests.antt =====
-- Runs of the sign-in of frontend-next/src, and its theorems at an input.
use tiny_crm.Prelude.{
  ◌≡◌, refl, true, false, Option, none, some, List, [], ◌∷◌, Text, codes, starts_with,
}
use tiny_crm.Token.{Tokens, Storage, get_token}
use tiny_crm.Editing.{api_error}
use tiny_crm.SignIn.{
  LoginEvent, session, challenged, refused, is_same_app, open_login, login_run, guard, logout,
  to_login,
}
use tiny_crm.SignIn.Session.{IsSafe, login_run-IsSafe, after_sign_in, guard-after_sign_in}

abbrev empty_storage : Storage
empty_storage = record { access = none; refresh = none; blocked = false }

abbrev fresh : Tokens
fresh = record { access_token = codes "a"; refresh_token = codes "r" }

abbrev elsewhere : Option Text
elsewhere = some (codes "//evil.example")

-- A code that comes too late, and the password again.
abbrev late_code : List LoginEvent
late_code = challenged (codes "m") ∷ refused (api_error 401 (codes "Expired")) ∷ session fresh ∷ []

login_run-IsSafe_example : IsSafe (login_run late_code (open_login empty_storage elsewhere))
login_run-IsSafe_example = login_run-IsSafe empty_storage elsewhere late_code

deals_page : is_same_app (codes "/deals?page=2") ≡ true
unfolding is_same_app starts_with
deals_page = refl

guard-after_sign_in_example :
    ((guard empty_storage (codes "/deals?page=2") none).outcome ≡ to_login (codes "/deals?page=2"))
    × ((after_sign_in empty_storage (codes "/deals?page=2") fresh (codes "m")).place
        ≡ some (codes "/deals?page=2"))
    × (get_token (after_sign_in empty_storage (codes "/deals?page=2") fresh (codes "m")).storage
        ≡ some (codes "a"))
    × ((guard
          (logout
            (after_sign_in empty_storage (codes "/deals?page=2") fresh (codes "m")).storage).storage
          (codes "/deals?page=2")
          none).outcome
        ≡ to_login (codes "/deals?page=2"))
guard-after_sign_in_example =
    guard-after_sign_in empty_storage (codes "/deals?page=2") none fresh (codes "m") refl refl
      deals_page
