-- ===== src/Account/Told.antt =====
-- What is said of a password that is refused, and what is sent
-- (frontend-next/src/routes/reset-password.tsx, frontend-next/src/routes/_authed/account/password.tsx).
use mathlib.Core.Option.{none-ne-some}
use tiny_crm.Prelude.{
  Bool, [], codes, ℕ, ◌+◌, false, ◌≤◌, ◌≡◌, refl, true, not, ◌||◌, Option, none, some, Text,
  text_eq_iff, truthy, length, leb→le, is_some, Bool-cases, inl, inr, if◌then◌else◌, subst,
}
use tiny_crm.Forms.Fields.{when_valid-some}
use tiny_crm.Account.{
  ◌∷◌, Failure, Page, dead_link, done, with_form, failed, reset_page, change_page, token_given,
  is_bad_token, invalid_password_reason, banner_unless, shown, not_accepted, coded_reason,
  describe_change, message, reset_trouble, is_old_password, ResetForm, submit_reset, reset_checks,
}

-- How many words of a failure a page has: the dead link is one.
abbrev pub told : Page → ℕ
told dead_link = 1
told done = 0
told (with_form field banner) = (if is_some field then 1 else 0) + (if is_some banner then 1 else 0)

told-form :
    (reason : Option Text) (trouble : Text)
    → told (with_form (shown reason) (banner_unless reason trouble)) ≡ 1
told-form none trouble = refl
told-form (some []) trouble = refl
told-form (some (c ∷ reason)) trouble = refl

not_accepted-truthy :
    (reason : Option Text) (m : Text) → truthy m ≡ true → truthy (not_accepted reason m) ≡ true
not_accepted-truthy none m h = h
not_accepted-truthy (some reason) m h = refl

describe_change-truthy :
    (error : Failure) → truthy (message error) ≡ true → truthy (describe_change error) ≡ true
unfolding describe_change
describe_change-truthy error h = elim (Bool-cases (is_old_password error)) [
  | inl e ↦ rw e
  | inr e ↦
      rw e
        (not_accepted-truthy (coded_reason (codes "INVALID_PASSWORD") [] error) (message error) h)
]

told-placed :
    (b : Bool) (t : Text)
    → truthy t ≡ true
    → told (if b then with_form (some t) none else with_form none (shown (some t))) ≡ 1
told-placed true t h = refl
told-placed false t h = rw h

-- Whatever the failure, if its message is not empty: both pages say it exactly once, at the field, in the
-- banner or as the dead link.
pub failure_told :
    (token : Option Text) (error : Failure)
    → truthy (message error) ≡ true
    → (told (reset_page token (failed error)) ≡ 1) × (told (change_page (failed error)) ≡ 1)
unfolding reset_page change_page
failure_told token error h = (
  elim (Bool-cases (not (token_given token) || is_bad_token error)) [
    | inl e ↦ rw e
    | inr e ↦ rw e (told-form (invalid_password_reason error) (reset_trouble error))
  ],
  told-placed (is_old_password error) (describe_change error) (describe_change-truthy error h),
)

-- What may be sent as a new password.
pub record IsReset (token : Option Text) (v : ResetForm) (sent : Text × Text) : Type 0 where
  pub token_kept : token ≡ some sent.0
  pub token_filled : truthy sent.0 ≡ true
  pub long : 8 ≤ length sent.1
  pub confirmed : v.confirm ≡ sent.1

-- What is sent from the page of a link: the token of the link, which is not empty, with a password of at
-- least 8 characters that was typed twice alike.
pub submit_reset-IsReset :
    (token : Option Text) (v : ResetForm) (sent : Text × Text)
    → submit_reset token v ≡ some sent
    → IsReset token v sent
unfolding submit_reset
submit_reset-IsReset none v sent h = absurd (none-ne-some _ h)
submit_reset-IsReset (some t) v sent h = elim (Bool-cases (truthy t)) [
  | inl e ↦
      let ((long, (same, _)), kept) =
        when_valid-some (reset_checks v) (t, v.password) sent (rw e at h) in
      subst (IsReset (some t) v) kept (record {
        token_kept = refl;
        token_filled = e;
        long = leb→le 8 (length v.password) long;
        confirmed = (text_eq_iff v.confirm v.password).0 same;
      })
  | inr e ↦ absurd (none-ne-some _ (rw e at h))
]
