-- ===== src/Paging/Fetch.antt =====
-- What the calendar's loop of frontend-next/src/interactions.ts brings back.
use tiny_crm.Prelude.{
  ◌∙◌, fun_ext, fun_ext, ℕ, zero, suc, ◌+◌, ◌-◌, ◌≤◌, ◌<◌, ◌≡◌, refl, ap, min, true, false, ◌||◌,
  inl, inr, Bool-cases, some, List, [], ◌∷◌, ◌++◌, take, drop, length, length-take, length-drop,
  leb, ◌==◌, arith,
}
use tiny_crm.Paging.{Page, fetch_from, fetch_calendar}

module _ {ℓ} {A : Type ℓ} (all : List A) (most : ℕ) where
  -- A server that holds `all` in a fixed order, and gives at most `most` items at a time.
  abbrev pub slice : ℕ → ℕ → Page A
  slice skip limit = record { items = take (min most limit) (drop skip all); total = length all }

-- A server that answers each request with a slice of one list.
abbrev pub IsSlicing {ℓ} : {A : Type ℓ} → List A → ℕ → (ℕ → ℕ → Page A) → Type ℓ
IsSlicing all most serve = (skip limit : ℕ) → serve skip limit ≡ slice all most skip limit

suc_plus : (k n : ℕ) → suc k + n ≡ suc (k + n)
suc_plus k n = omega arith

zero_plus : (n : ℕ) → 0 + n ≡ n
zero_plus n = omega arith

-- The loop's test, at a list of `l` items of which `k` are there and at most `m` come.
ended :
    (m l k : ℕ) → 1 ≤ m → k ≤ l → (min m (l - k) == 0 || leb l (min (k + m) l)) ≡ true → l ≤ k + m
ended m l k h1 hk e = ground arith

goes_on :
    (m l k : ℕ) → 1 ≤ m → k ≤ l → (min m (l - k) == 0 || leb l (min (k + m) l)) ≡ false → k + m ≤ l
goes_on m l k h1 hk e = ground arith

nonzero_step : (n : ℕ) → 1 ≤ n → 1 ≤ min n 200
nonzero_step n h = omega arith

closer : (m l k fuel : ℕ) → 1 ≤ m → k + m ≤ l → l - k < suc fuel → l - (k + m) < fuel
closer m l k fuel h1 h hf = omega arith

module _ {ℓ} {A : Type ℓ} where
  take_nil : (n : ℕ) → take {A = A} n [] ≡ []
  take_nil zero = refl
  take_nil (suc n) = refl

  take_all : (n : ℕ) (all : List A) → length all ≤ n → take n all ≡ all
  take_all zero [] h = refl
  take_all (suc n) [] h = refl
  take_all zero (a ∷ all) h = absurd (omega arith)
  take_all (suc n) (a ∷ all) h = ap (a ∷◌) (take_all n all (omega arith))

  -- What was fetched is what stands before the rest of the list.
  slice_next : (k n : ℕ) (all : List A) → take k all ++ take n (drop k all) ≡ take (k + n) all
  slice_next zero n all = rw (zero_plus n)
  slice_next (suc k) zero [] = rw (take_nil (suc k + zero))
  slice_next (suc k) (suc n) [] = rw (take_nil (suc k + suc n))
  slice_next (suc k) n (a ∷ all) = rw (suc_plus k n) (ap (a ∷◌) (slice_next k n all))

  fetch_from-take :
      (all : List A) (most : ℕ) (fuel k : ℕ)
      → 1 ≤ most
      → k ≤ length all
      → length all - k < fuel
      → fetch_from (slice all most) fuel (take k all)
        ≡ some (record { items = all; total = length all })
  unfolding fetch_from
  fetch_from-take all most zero k h1 hk hf = absurd (omega arith)
  fetch_from-take all most (suc fuel) k h1 hk hf =
      let size : length (take k all) ≡ k = length-take k all ∙ omega arith in
      let found : length (take (min most 200) (drop k all)) ≡ min (min most 200) (length all - k) =
        length-take (min most 200) (drop k all) ∙ ap (min (min most 200)) (length-drop k all) in
      let reached : length (take (k + min most 200) all) ≡ min (k + min most 200) (length all) =
        length-take (k + min most 200) all in
      rw (size, slice_next k (min most 200) all, found, reached)
        (elim (Bool-cases (
          min (min most 200) (length all - k) == 0
          || leb (length all) (min (k + min most 200) (length all)))) [
            | inl e ↦
                let last = ended (min most 200) (length all) k (nonzero_step most h1) hk e in
                rw e (rw (take_all (k + min most 200) all last))
            | inr e ↦
                let within = goes_on (min most 200) (length all) k (nonzero_step most h1) hk e in
                rw e (
                  fetch_from-take all most fuel (k + min most 200) h1 within
                    (closer (min most 200) (length all) k fuel (nonzero_step most h1) within hf))
          ])

  -- When the server answers with slices of one list, at least one item at a time, the calendar's
  -- loop ends within as many rounds as the list has items and one more, and brings back the whole
  -- list, in order, once.
  pub fetch_calendar_lem :
      (serve : ℕ → ℕ → Page A) (all : List A) (most fuel : ℕ)
      → IsSlicing all most serve
      → 1 ≤ most
      → length all < fuel
      → fetch_calendar serve fuel ≡ some (record { items = all; total = length all })
  unfolding fetch_calendar
  fetch_calendar_lem serve all most fuel h h1 hf =
      rw (fun_ext (λ skip. fun_ext (h skip)))
        (fetch_from-take all most fuel 0 h1 (omega arith) (omega arith))
