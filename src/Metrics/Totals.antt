-- ===== src/Metrics/Totals.antt =====
-- One exact total for each currency: `totalsByCurrency` of frontend-next/src/metrics.ts.
use tiny_crm.Prelude.{
  sort, insert, ℕ, ◌+◌, ◌≤◌, ◌≡◌, refl, ap, ◌∙◌, inl, inr, Bool, false, Option, none, some, List,
  [], ◌∷◌, map, arith, Text, text_eq, text_eq_iff, Bool-cases, if◌then◌else◌,
}
use tiny_crm.Metrics.{
  StageMoney, MoneyByCurrency, Total, plus_row, no_total, add_total, shown_total, exact_cents,
}
use tiny_crm.Metrics.Cents.{exact_cents-from_cents}

-- The sum of a measure over what is of one currency.
module _ {A : Type 0} (currency : A → Text) (measure : A → ℕ) where
  abbrev pub sum_in : Text → List A → ℕ
  sum_in c [] = 0
  sum_in c (a ∷ l) = (if text_eq (currency a) c then measure a else 0) + sum_in c l

  sum_in-insert :
      (before : A → A → Bool) (c : Text) (a : A) (l : List A)
      → sum_in c (insert before a l) ≡ sum_in c (a ∷ l)
  unfolding insert
  sum_in-insert before c a [] = refl
  sum_in-insert before c a (b ∷ l) = elim (Bool-cases (before a b)) [
    | inl e ↦ rw e
    | inr e ↦ rw e (let ih = sum_in-insert before c a l in omega arith)
  ]

  pub sum_in-sort :
      (before : A → A → Bool) (c : Text) (l : List A) → sum_in c (sort before l) ≡ sum_in c l
  unfolding sort
  sum_in-sort before c [] = refl
  sum_in-sort before c (a ∷ l) =
      sum_in-insert before c a (sort before l)
      ∙ ap (λ n. (if text_eq (currency a) c then measure a else 0) + n) (sum_in-sort before c l)

-- The cents of the amounts of one currency, as `exactCents` reads them, if it reads them all.
abbrev pub plus_option : Option ℕ → Option ℕ → Option ℕ
plus_option none b = none
plus_option (some a) none = none
plus_option (some a) (some b) = some (a + b)

module _ {A : Type 0} (currency value : A → Text) where
  abbrev pub cents_in : Text → List A → Option ℕ
  cents_in c [] = some 0
  cents_in c (a ∷ l) =
      let rest = cents_in c l in
      if text_eq (currency a) c then plus_option (exact_cents (value a)) rest else rest

module _ (c : Text) where
  pub cents_in-shown :
      (ts : List Total)
      → cents_in (λ (m : MoneyByCurrency). m.currency) (λ m. m.value) c (map shown_total ts)
        ≡ some (sum_in (λ (t : Total). t.currency) (λ t. t.cents) c ts)
  cents_in-shown [] = refl
  cents_in-shown (t ∷ ts) = elim (Bool-cases (text_eq t.currency c)) [
    | inl e ↦ rw e (rw (exact_cents-from_cents t.cents) (rw (cents_in-shown ts)))
    | inr e ↦ rw e (cents_in-shown ts ∙ ap some (omega arith))
  ]

  -- What a row adds to the totals, in any of the sums.
  pub sum_in-add_total :
      (measure : Total → ℕ) (cents k : ℕ) (row : StageMoney) (ts : List Total)
      → ((t : Total) → measure (plus_row cents row t) ≡ measure t + k)
      → measure (no_total row.currency) ≡ 0
      → sum_in (λ (t : Total). t.currency) measure c (add_total cents row ts)
        ≡ sum_in (λ (t : Total). t.currency) measure c ts
          + (if text_eq row.currency c then k else 0)
  unfolding add_total
  sum_in-add_total measure cents k row [] h z = ground (arith, h (no_total row.currency))
  sum_in-add_total measure cents k row (t ∷ ts) h z = ground (
    arith,
    h t,
    text_eq_iff t.currency row.currency,
    text_eq_iff t.currency c,
    text_eq_iff row.currency c,
    sum_in-add_total measure cents k row ts h z,
  )

  -- A currency has one total, however many rows it has.
  pub entries_in-add_total :
      (cents : ℕ) (row : StageMoney) (ts : List Total)
      → sum_in (λ (t : Total). t.currency) (λ t. 1) c ts ≤ 1
      → (sum_in (λ (t : Total). t.currency) (λ t. 1) c (add_total cents row ts) ≤ 1)
        × (text_eq row.currency c ≡ false
            → sum_in (λ (t : Total). t.currency) (λ t. 1) c (add_total cents row ts)
              ≡ sum_in (λ (t : Total). t.currency) (λ t. 1) c ts)
  unfolding add_total
  entries_in-add_total cents row [] h = ground arith
  entries_in-add_total cents row (t ∷ ts) h = ground (
    arith,
    text_eq_iff t.currency row.currency,
    text_eq_iff t.currency c,
    text_eq_iff row.currency c,
    entries_in-add_total cents row ts,
  )
