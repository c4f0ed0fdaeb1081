-- ===== src/Shell/Tries.antt =====
-- How often a query is tried (frontend-next/src/main.tsx).
use tiny_crm.Prelude.{
  ltb→lt, ℕ, zero, suc, ◌+◌, ◌≤◌, ◌≡◌, ◌⊎◌, inl, inr, true, Bool-cases, Option-cases, Option, none,
  some, ltb, arith,
}
use tiny_crm.Editing.{Failure}
use tiny_crm.Shell.{is_client_error, retry, last_try}

-- Why no try follows: a success, an error that the request itself is to blame for, or three retries.
abbrev pub IsEnd : Option Failure → ℕ → Type 0
IsEnd none n = Unit
IsEnd (some err) n = (is_client_error err ≡ true) ⊎ (n ≡ 3)

module _ (outcome : ℕ → Option Failure) where
  last_try_from :
      (fuel n : ℕ)
      → n ≤ 3
      → 4 ≤ fuel + n
      → (k : ℕ) × (last_try outcome fuel n ≡ some k) × (n ≤ k) × (k ≤ 3) × IsEnd (outcome k) k
  unfolding last_try retry
  last_try_from zero n h f = absurd (omega arith)
  last_try_from (suc fuel) n h f = elim (Option-cases (outcome n)) [
    | inl e ↦ (n, rw e, omega arith, h, rw e tt)
    | inr (err, e) ↦ elim (Bool-cases (is_client_error err)) [
      | inl c ↦ (n, rw (e, c), omega arith, h, rw e (inl c))
      | inr c ↦ elim (Bool-cases (ltb n 3)) [
        | inl l ↦
            let (k, g, m, u, d) =
              last_try_from fuel (n + 1) (let b = ltb→lt n 3 l in omega arith) (omega arith) in
            (k, rw (e, c, l) g, omega arith, u, d)
        | inr l ↦
            let three : n ≡ 3 = ground arith in (n, rw (e, c, l), omega arith, h, rw e (inr three))
      ]
    ]
  ]

  -- A query comes to an end after four tries at most: its last one succeeded, was answered with an
  -- error from 400 to 499, or was the fourth.
  pub last_try-IsEnd :
      (fuel : ℕ)
      → 4 ≤ fuel
      → (k : ℕ) × (last_try outcome fuel 0 ≡ some k) × (k ≤ 3) × IsEnd (outcome k) k
  last_try-IsEnd fuel h =
      let (k, e, _, l, d) = last_try_from fuel 0 (omega arith) (omega arith) in (k, e, l, d)
