-- ===== src/Metrics/Sums.antt =====
-- The loop of `totalsByCurrency` (frontend-next/src/metrics.ts) adds exactly what its rows say.
use mathlib.Core.Option.{some-injective, none-ne-some}
use tiny_crm.Prelude.{
  sort, is_some, ◌&&◌, all, arith, inl, inr, sym, sym, Bool, subst, ℕ, ◌+◌, ◌≤◌, ◌≡◌, refl, ap, ◌∙◌,
  Option, none, some, List, [], ◌∷◌, map, Text, text_eq, Bool-cases, if◌then◌else◌,
}
use tiny_crm.Metrics.{
  or_throw, StageMoney, MoneyByCurrency, Total, plus_row, no_total, add_total, shown_total,
  exact_cents, tally, totals_by_currency, shown_totals, total_before,
}
use tiny_crm.Metrics.Totals.{
  sum_in, cents_in, sum_in-sort, cents_in-shown, sum_in-add_total, entries_in-add_total,
}

-- A round that goes on has read its amount.
or_throw-some :
    (o : Option ℕ) (k : ℕ → Option (List Total)) (us : List Total)
    → or_throw o k ≡ some us
    → (cents : ℕ) × (o ≡ some cents) × (k cents ≡ some us)
or_throw-some none k us e = absurd (none-ne-some _ e)
or_throw-some (some cents) k us e = (cents, refl, e)

module _ (c : Text) where
  -- What the loop adds to a figure of a currency that each row adds `gain row` to.
  tally-sum_in :
      (measure : Total → ℕ) (gain : StageMoney → ℕ) (rows : List StageMoney) (ts us : List Total)
      → ((cents : ℕ) (row : StageMoney) (t : Total)
          → measure (plus_row cents row t) ≡ measure t + gain row)
      → ((currency : Text) → measure (no_total currency) ≡ 0)
      → tally rows ts ≡ some us
      → sum_in (λ (t : Total). t.currency) measure c us
        ≡ sum_in (λ (t : Total). t.currency) measure c ts
          + sum_in (λ (row : StageMoney). row.currency) gain c rows
  unfolding tally
  tally-sum_in measure gain [] ts us h z e =
      subst
        (λ w.
          sum_in (λ (t : Total). t.currency) measure c w
          ≡ sum_in (λ (t : Total). t.currency) measure c ts + 0)
        (some-injective _ _ e) (omega arith)
  tally-sum_in measure gain (row ∷ rows) ts us h z e =
      let (cents, _, e2) = or_throw-some (exact_cents row.value) _ us e in
      let ih = tally-sum_in measure gain rows (add_total cents row ts) us h z e2 in
      let one = sum_in-add_total c measure cents (gain row) row ts (h cents row) (z row.currency) in
      ih ∙ rw one (omega arith)

  -- The cents of a currency, as the loop adds them.
  tally-cents :
      (rows : List StageMoney) (ts us : List Total)
      → tally rows ts ≡ some us
      → (k : ℕ) × (cents_in (λ (row : StageMoney). row.currency) (λ row. row.value) c rows ≡ some k)
        × (sum_in (λ (t : Total). t.currency) (λ t. t.cents) c us
            ≡ sum_in (λ (t : Total). t.currency) (λ t. t.cents) c ts + k)
  unfolding tally
  tally-cents [] ts us e = (
    0,
    refl,
    subst
        (λ w.
          sum_in (λ (t : Total). t.currency) (λ t. t.cents) c w
          ≡ sum_in (λ (t : Total). t.currency) (λ t. t.cents) c ts + 0)
        (some-injective _ _ e) (omega arith),
  )
  tally-cents (row ∷ rows) ts us e =
      let (cents, read, e2) = or_throw-some (exact_cents row.value) _ us e in
      let (k, later, ih) = tally-cents rows (add_total cents row ts) us e2 in
      let one = sum_in-add_total c (λ t. t.cents) cents cents row ts (λ t. refl) refl in
      elim (Bool-cases (text_eq row.currency c)) [
        | inl y ↦ (cents + k, rw y (rw read (rw later refl)), ih ∙ rw one (rw y (omega arith)))
        | inr y ↦ (k, rw y later, ih ∙ rw one (rw y (omega arith)))
      ]

  tally-entries :
      (rows : List StageMoney) (ts us : List Total)
      → sum_in (λ (t : Total). t.currency) (λ t. 1) c ts ≤ 1
      → tally rows ts ≡ some us
      → sum_in (λ (t : Total). t.currency) (λ t. 1) c us ≤ 1
  unfolding tally
  tally-entries [] ts us h e =
      subst (λ w. sum_in (λ (t : Total). t.currency) (λ t. 1) c w ≤ 1) (some-injective _ _ e) h
  tally-entries (row ∷ rows) ts us h e =
      let (cents, _, e2) = or_throw-some (exact_cents row.value) _ us e in
      tally-entries rows (add_total cents row ts) us ((entries_in-add_total c cents row ts h).0) e2

  -- A figure that is shown as it is counted.
  sum_in-shown :
      (measure : Total → ℕ) (shown : MoneyByCurrency → ℕ) (ts : List Total)
      → ((t : Total) → shown (shown_total t) ≡ measure t)
      → sum_in (λ (m : MoneyByCurrency). m.currency) shown c (map shown_total ts)
        ≡ sum_in (λ (t : Total). t.currency) measure c ts
  sum_in-shown measure shown [] h = refl
  sum_in-shown measure shown (t ∷ ts) h = rw (h t) (
      ap (λ n. (if text_eq t.currency c then measure t else 0) + n)
        (sum_in-shown measure shown ts h))

zero_plus : (x : ℕ) → 0 + x ≡ x
zero_plus x = omega arith

shown_totals-some :
    (before : Text → Text → Bool) (o : Option (List Total)) (shown : List MoneyByCurrency)
    → shown_totals before o ≡ some shown
    → (us : List Total) × (o ≡ some us) × (map shown_total (sort (total_before before) us) ≡ shown)
shown_totals-some before none shown e = absurd (none-ne-some _ e)
shown_totals-some before (some us) shown e = (us, refl, some-injective _ _ e)

-- What the totals must say of a currency: the cents, the deals and the open-ended deals of its rows,
-- in one total at most.
abbrev pub IsExact : Text → List StageMoney → List MoneyByCurrency → Type 0
IsExact c rows shown =
    ((k : ℕ) × (cents_in (λ (row : StageMoney). row.currency) (λ row. row.value) c rows ≡ some k)
      × (cents_in (λ (m : MoneyByCurrency). m.currency) (λ m. m.value) c shown ≡ some k))
    × (sum_in (λ (m : MoneyByCurrency). m.currency) (λ m. m.count) c shown
        ≡ sum_in (λ (row : StageMoney). row.currency) (λ row. row.count) c rows)
    × (sum_in (λ (m : MoneyByCurrency). m.currency) (λ m. m.open_ended) c shown
        ≡ sum_in (λ (row : StageMoney). row.currency) (λ row. row.open_ended) c rows)
    × (sum_in (λ (m : MoneyByCurrency). m.currency) (λ m. 1) c shown ≤ 1)

-- When no amount throws, the totals that are shown hold, for each currency, exactly the cents, the
-- deals and the open-ended deals of the rows of that currency, and at most one total stands for it,
-- whatever order of the currencies the reader's locale gives.
pub totals_by_currency_lem :
    (before : Text → Text → Bool) (rows : List StageMoney) (shown : List MoneyByCurrency) (c : Text)
    → totals_by_currency before rows ≡ some shown
    → IsExact c rows shown
unfolding totals_by_currency
totals_by_currency_lem before rows shown c e =
    let (us, e1, e2) = shown_totals-some before (tally rows []) shown e in
    let (k, read, cents) = tally-cents c rows [] us e1 in
    let sorted : (measure : Total → ℕ)
        → sum_in (λ (t : Total). t.currency) measure c (sort (total_before before) us)
          ≡ sum_in (λ (t : Total). t.currency) measure c us =
      λ measure. sum_in-sort (λ (t : Total). t.currency) measure (total_before before) c us in
    subst (IsExact c rows) e2 (
      (
        k,
        read,
        cents_in-shown c (sort (total_before before) us)
            ∙ ap some (sorted (λ t. t.cents) ∙ cents ∙ zero_plus k),
      ),
      sum_in-shown c (λ t. t.count) (λ m. m.count) (sort (total_before before) us) (λ t. refl)
          ∙ sorted (λ t. t.count)
          ∙ tally-sum_in c (λ t. t.count) (λ row. row.count) rows [] us (λ cents row t. refl)
              (λ x. refl) e1
          ∙ zero_plus (sum_in (λ (row : StageMoney). row.currency) (λ row. row.count) c rows),
      sum_in-shown c (λ t. t.open_ended) (λ m. m.open_ended) (sort (total_before before) us)
            (λ t. refl)
          ∙ sorted (λ t. t.open_ended)
          ∙ tally-sum_in c (λ t. t.open_ended) (λ row. row.open_ended) rows [] us
              (λ cents row t. refl) (λ x. refl) e1
          ∙ zero_plus (sum_in (λ (row : StageMoney). row.currency) (λ row. row.open_ended) c rows),
      subst (λ n. n ≤ 1)
          (sym (
            sum_in-shown c (λ t. 1) (λ m. 1) (sort (total_before before) us) (λ t. refl)
            ∙ sorted (λ t. 1)))
          (tally-entries c rows [] us (omega arith) e1),
    )

tally-is_some :
    (rows : List StageMoney) (ts : List Total)
    → is_some (tally rows ts) ≡ all (λ row. is_some (exact_cents row.value)) rows
unfolding tally
tally-is_some [] ts = refl
tally-is_some (row ∷ rows) ts = by_amount (exact_cents row.value) (tally-is_some rows)
  where
    by_amount :
        (o : Option ℕ)
        → ((us : List Total)
            → is_some (tally rows us) ≡ all (λ row. is_some (exact_cents row.value)) rows)
        → is_some (or_throw o (λ cents. tally rows (add_total cents row ts)))
          ≡ is_some o && all (λ row. is_some (exact_cents row.value)) rows
    by_amount none ih = refl
    by_amount (some cents) ih = ih (add_total cents row ts)

-- The totals throw exactly when the amount of some row is not read as cents.
pub totals_by_currency-is_some :
    (before : Text → Text → Bool) (rows : List StageMoney)
    → is_some (totals_by_currency before rows) ≡ all (λ row. is_some (exact_cents row.value)) rows
unfolding totals_by_currency
totals_by_currency-is_some before rows = shown (tally rows []) ∙ tally-is_some rows []
  where
    shown : (o : Option (List Total)) → is_some (shown_totals before o) ≡ is_some o
    shown none = refl
    shown (some us) = refl
