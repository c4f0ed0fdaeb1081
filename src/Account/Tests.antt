-- ===== src/Account/Tests.antt =====
-- Passwords that are refused and set, and a key (frontend-next/src/routes/reset-password.tsx,
-- frontend-next/src/routes/_authed/account/mfa.tsx).
use tiny_crm.Prelude.{[], ◌≡◌, refl, none, some, codes, trim, is_space}
use tiny_crm.Account.{
  reset_trouble, Failure, api_error, coded, failed, is_bad_token, invalid_password_reason,
  reset_page, change_page, ResetForm, submit_reset, group_key, with_form,
}
use tiny_crm.Account.Told.{told, failure_told, IsReset, submit_reset-IsReset}

abbrev too_common : Failure
too_common =
    api_error 400 (coded (codes "RESET_PASSWORD_INVALID_PASSWORD") (some (codes "Too common.")))
      (codes "Bad Request")

at_field :
    reset_page (some (codes "t")) (failed too_common) ≡ with_form (some (codes "Too common.")) none
unfolding reset_page is_bad_token invalid_password_reason
at_field = refl

failure_told_example :
    (told (reset_page (some (codes "t")) (failed too_common)) ≡ 1)
    × (told (change_page (failed too_common)) ≡ 1)
failure_told_example = failure_told (some (codes "t")) too_common refl

-- A reason that is empty goes to the banner.
in_banner :
    reset_page (some (codes "t")) (
      failed (
        api_error 400
          (coded (codes "RESET_PASSWORD_INVALID_PASSWORD") (some []))
          (codes "Bad Request")))
    ≡ with_form none (some (codes "Could not set the password (400)."))
unfolding reset_page is_bad_token invalid_password_reason reset_trouble
in_banner = refl

abbrev typed : ResetForm
typed = record { password = codes "correct horse"; confirm = codes "correct horse" }

sent : submit_reset (some (codes "t")) typed ≡ some (codes "t", codes "correct horse")
unfolding submit_reset
sent = refl

submit_reset-IsReset_example : IsReset (some (codes "t")) typed (codes "t", codes "correct horse")
submit_reset-IsReset_example =
    submit_reset-IsReset (some (codes "t")) typed (codes "t", codes "correct horse") sent

fours : group_key (codes "JBSWY3DPEHPK") ≡ codes "JBSW Y3DP EHPK"
unfolding group_key trim is_space
fours = refl
