-- ===== src/Token/Expiry.antt =====
-- When a token is renewed: frontend-next/src/token.ts, `expiresSoon`.
use mathlib.Core.Option.{some-injective}
use tiny_crm.Prelude.{
  ℕ, ◌+◌, ◌*◌, ◌<◌, ◌≡◌, ◌↔◌, refl, false, Option, none, some, arith, Text, split,
}
use tiny_crm.Token.{second, from_base64url, expires_soon, is_due, payload_due}

abbrev pub joined : Option (Option ℕ) → Option ℕ
joined none = none
joined (some none) = none
joined (some (some exp)) = some exp

is_due_iff :
    (now : ℕ) (r : Option (Option ℕ))
    → (is_due now r ≡ false) ↔ ((exp : ℕ) × (joined r ≡ some exp) × (now + 30000 < exp * 1000))
is_due_iff now none = ((λ e. cc), (λ h. cc (h.1)))
is_due_iff now (some none) = ((λ e. cc), (λ h. cc (h.1)))
is_due_iff now (some (some exp)) = (
  (λ e. (exp, refl, ground arith)),
  (λ h. let same : exp ≡ h.0 = some-injective _ _ h.1 in let far = h.2 in ground arith),
)

module _ (exp_of : Text → Option (Option ℕ)) where
  -- The expiry that a token states, if it can be read.
  abbrev pub stated : Option Text → Option ℕ
  stated none = none
  stated (some payload) = joined (exp_of (from_base64url payload))

  payload_due_iff :
      (now : ℕ) (o : Option Text)
      → (payload_due exp_of now o ≡ false)
        ↔ ((exp : ℕ) × (stated o ≡ some exp) × (now + 30000 < exp * 1000))
  payload_due_iff now none = is_due_iff now none
  payload_due_iff now (some payload) = is_due_iff now (exp_of (from_base64url payload))

  -- A token is used as it is exactly if it states an expiry that is more than 30 seconds away;
  -- one that cannot be read, or states no number, counts as expiring.
  pub expires_soon_iff :
      (now : ℕ) (token : Text)
      → (expires_soon exp_of now token ≡ false)
        ↔ ((exp : ℕ) × (stated (second (split b'.' token)) ≡ some exp) × (now + 30000 < exp * 1000))
  unfolding expires_soon
  expires_soon_iff now token = payload_due_iff now (second (split b'.' token))
