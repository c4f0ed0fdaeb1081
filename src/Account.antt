-- ===== src/Account.antt =====
-- Passwords and the second factor: frontend-next/src/routes/reset-password.tsx,
-- frontend-next/src/routes/_authed/account/password.tsx and frontend-next/src/routes/_authed/account/mfa.tsx.
pub mod Told
pub mod Key
mod Tests
use tiny_crm.Prelude.{
  ℕ, suc, zero, ◌+◌, Bool, true, false, ◌&&◌, ◌||◌, not, Option, none, some, List, [], ◌∷◌, ◌++◌,
  Text, codes, text_eq, truthy, trim, length, leb, nat_text, is_some, if◌then◌else◌,
}
use tiny_crm.Forms.{Check, check, failing, when_valid}
use tiny_crm.Forms.Watch.{is_line_break}

-- `detail` of an `ApiError`: a text, or an object with `code` and `reason`, or neither.
pub data Detail : Type 0 where
  code_only : Text → Detail
  coded : Text → Option Text → Detail
  no_detail : Detail

-- `ApiError` with its status and message, or another error with its message.
pub data Failure : Type 0 where
  api_error : ℕ → Detail → Text → Failure
  other_error : Text → Failure

abbrev pub message : Failure → Text
message (api_error _ _ m) = m
message (other_error m) = m

-- `error instanceof ApiError && error.detail === code`.
unfoldable pub has_detail : Text → Failure → Bool
has_detail code (api_error status (code_only c) m) = text_eq c code
has_detail code (api_error status (coded c reason) m) = false
has_detail code (api_error status no_detail m) = false
has_detail code (other_error m) = false

abbrev pub reason_or : Text → Option Text → Text
reason_or other none = other
reason_or other (some reason) = reason

-- `detail?.code === code`, with what is said of the reason.
unfoldable pub coded_reason : Text → Text → Failure → Option Text
coded_reason code other (api_error status (coded c reason) m) =
    if text_eq c code then some (reason_or other reason) else none
coded_reason code other (api_error status (code_only c) m) = none
coded_reason code other (api_error status no_detail m) = none
coded_reason code other (other_error m) = none

-- `MIN_PASSWORD_LENGTH`.
abbrev pub min_password_length : ℕ
min_password_length = 8

-- `ResetPasswordPage`.
pub record ResetForm : Type 0 where
  pub password : Text
  pub confirm : Text

unfoldable pub reset_checks : ResetForm → List Check
reset_checks v =
    check (leb min_password_length (length v.password)) (codes "password")
      (codes "At least 8 characters.")
    ∷ check (text_eq v.confirm v.password) (codes "confirm") (codes "Does not match the password.")
    ∷ []

abbrev pub is_bad_token : Failure → Bool
unfolding has_detail
is_bad_token error = has_detail (codes "RESET_PASSWORD_BAD_TOKEN") error

abbrev pub invalid_password_reason : Failure → Option Text
unfolding coded_reason
invalid_password_reason error =
    coded_reason (codes "RESET_PASSWORD_INVALID_PASSWORD") (codes "Not accepted.") error

abbrev pub reset_trouble : Failure → Text
unfolding nat_text
reset_trouble (api_error status _ m) =
    codes "Could not set the password (" ++ (nat_text status ++ codes ").")
reset_trouble (other_error m) = codes "Cannot reach the server."

-- The state of the mutation.
pub data Mutation : Type 0 where
  idle pending success : Mutation
  failed : Failure → Mutation

-- What the page is: the dead link, the word that it is done, or the form with what is said at its field and
-- in its banner.
pub data Page : Type 0 where
  dead_link done : Page
  with_form : Option Text → Option Text → Page

abbrev pub token_given : Option Text → Bool
token_given none = false
token_given (some t) = truthy t

-- A text that is empty is shown nowhere.
abbrev pub shown : Option Text → Option Text
shown none = none
shown (some t) = if truthy t then some t else none

abbrev pub banner_unless : Option Text → Text → Option Text
banner_unless none trouble = some trouble
banner_unless (some reason) trouble = if truthy reason then none else some trouble

unfoldable pub reset_page : Option Text → Mutation → Page
reset_page token (failed error) =
    if not (token_given token) || is_bad_token error
    then dead_link
    else with_form (shown (invalid_password_reason error))
        (banner_unless (invalid_password_reason error) (reset_trouble error))
reset_page token success = if token_given token then done else dead_link
reset_page token idle = if token_given token then with_form none none else dead_link
reset_page token pending = if token_given token then with_form none none else dead_link

-- The body of the request: the token and the password, from the page with its form.
abbrev pub or_none : Option Text → Text
or_none none = []
or_none (some t) = t

unfoldable pub submit_reset : Option Text → ResetForm → Option (Text × Text)
unfolding reset_checks failing
submit_reset token v =
    if token_given token
    then when_valid (failing (reset_checks v)) (or_none token, v.password)
    else none

-- `ChangePassword`.
pub record ChangeForm : Type 0 where
  pub old_password : Text
  pub new_password : Text
  pub confirm : Text

unfoldable pub change_checks : ChangeForm → List Check
change_checks v =
    check (truthy v.old_password) (codes "old_password") (codes "Enter your current password.")
    ∷ check (leb min_password_length (length v.new_password)) (codes "new_password")
        (codes "At least 8 characters.")
    ∷ check (text_eq v.confirm v.new_password) (codes "confirm")
        (codes "Does not match the new password.")
    ∷ []

unfoldable pub submit_change : ChangeForm → Option (Text × Text)
unfolding change_checks failing
submit_change v = when_valid (failing (change_checks v)) (v.old_password, v.new_password)

abbrev pub is_old_password : Failure → Bool
unfolding has_detail
is_old_password error = has_detail (codes "INVALID_OLD_PASSWORD") error

abbrev pub not_accepted : Option Text → Text → Text
not_accepted none m = m
not_accepted (some reason) m = codes "The new password is not accepted: " ++ reason

unfoldable pub describe_change : Failure → Text
unfolding coded_reason
describe_change error =
    if is_old_password error
    then codes "The current password is not correct."
    else not_accepted (coded_reason (codes "INVALID_PASSWORD") [] error) (message error)

unfoldable pub change_page : Mutation → Page
unfolding describe_change
change_page (failed error) =
    if is_old_password error
    then with_form (some (describe_change error)) none
    else with_form none (shown (some (describe_change error)))
change_page success = done
change_page idle = with_form none none
change_page pending = with_form none none

-- `describe` of the page of the second factor.
unfoldable pub describe_mfa : Failure → Text
unfolding has_detail
describe_mfa error =
    if has_detail (codes "MFA_CODE_INVALID") error
    then codes "That code is not correct."
    else if has_detail (codes "PASSWORD_INCORRECT") error
    then codes "The password is not correct."
    else if has_detail (codes "MFA_SETUP_CHANGED") error
    then codes "Setup was restarted elsewhere. Scan the new code and try again."
    else message error

-- `.{4}` matches at the head of a text.
abbrev pub four_match : Text → Bool
four_match (a ∷ b ∷ c ∷ d ∷ s) =
    not (is_line_break a)
    && (not (is_line_break b) && (not (is_line_break c) && not (is_line_break d)))
four_match s = false

-- `secret.replace(/(.{4})/g, '$1 ')`; `left` is how much of a match is still to come.
unfoldable pub grouped : ℕ → Text → Text
grouped left [] = []
grouped zero (c ∷ s) =
    let inside = grouped 3 s in
    let outside = grouped 0 s in c ∷ (if four_match (c ∷ s) then inside else outside)
grouped (suc zero) (c ∷ s) = c ∷ 32 ∷ grouped 0 s
grouped (suc (suc left)) (c ∷ s) = c ∷ grouped (suc left) s

-- `groupKey`.
unfoldable pub group_key : Text → Text
unfolding grouped
group_key secret = trim (grouped 0 secret)
