-- ===== src/Token.antt =====
-- The two tokens of a login: frontend-next/src/token.ts. `localStorage` is the pair of entries that
-- the file owns; where it is blocked, every access throws and the source catches it.
pub mod Expiry
mod Tests
use tiny_crm.Prelude.{
  ℕ, ◌+◌, ◌*◌, Bool, true, false, Option, none, some, List, [], ◌∷◌, map, Text, split, leb, ◌==◌,
  if◌then◌else◌,
}

pub record Tokens : Type 0 where
  pub access_token : Text
  pub refresh_token : Text

pub record Storage : Type 0 where
  pub access : Option Text
  pub refresh : Option Text
  pub blocked : Bool

-- `read`, at each of the two keys.
abbrev pub read : Bool → Option Text → Option Text
read blocked item = if blocked then none else item

unfoldable pub get_token : Storage → Option Text
get_token s = read s.blocked s.access

unfoldable pub get_refresh_token : Storage → Option Text
get_refresh_token s = read s.blocked s.refresh

unfoldable pub set_tokens : Tokens → Storage → Storage
set_tokens t s =
    if s.blocked
    then s
    else record s { access = some t.access_token; refresh = some t.refresh_token }

unfoldable pub clear_tokens : Storage → Storage
clear_tokens s = if s.blocked then s else record s { access = none; refresh = none }

abbrev pub expiry_margin_seconds : ℕ
expiry_margin_seconds = 30

-- `.replace(/-/g, '+').replace(/_/g, '/')`.
unfoldable pub from_base64url : Text → Text
from_base64url s =
    map (λ c. if c == b'_' then b'/' else c) (map (λ c. if c == b'-' then b'+' else c) s)

-- `token.split('.')[1]`; `undefined` is `none`.
abbrev pub second : List Text → Option Text
second [] = none
second (p ∷ []) = none
second (p ∷ q ∷ ps) = some q

-- `typeof exp !== 'number' || exp - EXPIRY_MARGIN_SECONDS <= Date.now() / 1000`, or that something
-- threw. A JWT's `exp` is whole seconds, and `now` is milliseconds, as `Date.now()` gives them.
abbrev pub is_due : ℕ → Option (Option ℕ) → Bool
is_due now none = true
is_due now (some none) = true
is_due now (some (some exp)) = leb (exp * 1000) (now + expiry_margin_seconds * 1000)

-- `exp_of` stands for `atob`, `JSON.parse` and the field `exp`: `none` where one throws, `some none`
-- where `exp` is no number.
module _ (exp_of : Text → Option (Option ℕ)) where
  abbrev pub payload_due : ℕ → Option Text → Bool
  payload_due now none = true
  payload_due now (some payload) = is_due now (exp_of (from_base64url payload))

  unfoldable pub expires_soon : ℕ → Text → Bool
  expires_soon now token = payload_due now (second (split b'.' token))
