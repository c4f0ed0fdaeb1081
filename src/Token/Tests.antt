-- ===== src/Token/Tests.antt =====
-- A run of frontend-next/src/token.ts.
use tiny_crm.Prelude.{
  ℕ, ◌≡◌, refl, true, false, Option, none, some, Text, codes, split, text_eq, if◌then◌else◌,
}
use tiny_crm.Token.{from_base64url, expires_soon}

-- A payload `p` that states the second 1000, and nothing else that can be read.
abbrev sample_exp : Text → Option (Option ℕ)
sample_exp p = if text_eq p (codes "p+q/r") then some (some 1000) else none

still_good : expires_soon sample_exp 969999 (codes "h.p-q_r.s") ≡ false
unfolding expires_soon split from_base64url
still_good = refl

due : expires_soon sample_exp 970000 (codes "h.p-q_r.s") ≡ true
unfolding expires_soon split from_base64url
due = refl
