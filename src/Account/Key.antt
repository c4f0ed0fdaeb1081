-- ===== src/Account/Key.antt =====
-- The key of the second factor as it is shown (frontend-next/src/routes/_authed/account/mfa.tsx).
use tiny_crm.Prelude.{
  ℕ, zero, suc, ◌≡◌, refl, ap, ◌∙◌, not, [], ◌∷◌, Text, filter, is_space, trim, trim_start,
  trim_end, keep_end, Bool-cases, inl, inr,
}
use tiny_crm.Account.{grouped, four_match, group_key}

-- A text without its spaces.
abbrev pub solid : Text → Text
solid s = filter (λ c. not (is_space c)) s

solid-trim_start : (s : Text) → solid (trim_start s) ≡ solid s
unfolding trim_start
solid-trim_start [] = refl
solid-trim_start (c ∷ s) = elim (Bool-cases (is_space c)) [
  | inl e ↦ rw e (solid-trim_start s)
  | inr e ↦ rw (e, e)
]

solid-keep_end : (c : ℕ) (s : Text) → solid (keep_end c s) ≡ solid (c ∷ s)
unfolding keep_end
solid-keep_end c [] = elim (Bool-cases (is_space c)) [ inl e ↦ rw e | inr e ↦ rw (e, e) ]
solid-keep_end c (d ∷ s) = refl

solid_cons : (c : ℕ) (s t : Text) → solid s ≡ solid t → solid (c ∷ s) ≡ solid (c ∷ t)
solid_cons c s t h = elim (Bool-cases (is_space c)) [ inl e ↦ rw e h | inr e ↦ rw e (ap (◌∷◌ c) h) ]

solid-trim_end : (s : Text) → solid (trim_end s) ≡ solid s
unfolding trim_end
solid-trim_end [] = refl
solid-trim_end (c ∷ s) =
    solid-keep_end c (trim_end s) ∙ solid_cons c (trim_end s) s (solid-trim_end s)

solid_space : (s : Text) → solid (32 ∷ s) ≡ solid s
unfolding is_space
solid_space s = refl

solid-grouped : (left : ℕ) (s : Text) → solid (grouped left s) ≡ solid s
unfolding grouped
solid-grouped left [] = refl
solid-grouped zero (c ∷ s) = elim (Bool-cases (four_match (c ∷ s))) [
  | inl e ↦ rw e (solid_cons c (grouped 3 s) s (solid-grouped 3 s))
  | inr e ↦ rw e (solid_cons c (grouped 0 s) s (solid-grouped 0 s))
]
solid-grouped (suc zero) (c ∷ s) =
    solid_cons c (32 ∷ grouped 0 s) s (solid_space (grouped 0 s) ∙ solid-grouped 0 s)
solid-grouped (suc (suc left)) (c ∷ s) =
    solid_cons c (grouped (suc left) s) s (solid-grouped (suc left) s)

-- The key that is shown to be typed is the secret, apart from spaces.
pub group_key_lem : (secret : Text) → solid (group_key secret) ≡ solid secret
unfolding group_key trim
group_key_lem secret =
    solid-trim_end (trim_start (grouped 0 secret))
    ∙ solid-trim_start (grouped 0 secret)
    ∙ solid-grouped 0 secret
