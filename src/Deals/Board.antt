-- ===== src/Deals/Board.antt =====
-- The pipeline as columns: frontend-next/src/components/DealBoard.tsx. What is dropped on a column is told by
-- the ids that were dragged.
use tiny_crm.Prelude.{
  ℕ, ◌+◌, ◌≡◌, refl, ap, or_false, Bool, true, false, ◌&&◌, Option, none, some, List, [], ◌∷◌, map,
  Text, text_eq, text_eq_iff, find, any, filter, length, arith, Bool-cases, inl, inr, sym, ◌∙◌,
}
use tiny_crm.Deals.{Stage, DealRead, stage_eq, stage_value}

-- The deals of a `Column`.
unfoldable pub column : List DealRead → Stage → List DealRead
column deals stage = filter (λ d. stage_eq d.stage stage) deals

unfoldable pub board : List DealRead → List Stage → List (List DealRead)
unfolding column
board deals columns = map (column deals) columns

-- `dropped`: the deals that are moved, in order.
abbrev pub found : Option DealRead → List DealRead → List DealRead
found none rest = rest
found (some d) rest = d ∷ rest

unfoldable pub dropped : List DealRead → List Text → List DealRead
dropped deals [] = []
dropped deals (id ∷ ids) = found (find (λ d. text_eq d.id id) deals) (dropped deals ids)

abbrev pub has_column : List Stage → Stage → Bool
has_column columns stage = any (λ s. stage_eq stage s) columns

-- No stage has two columns.
abbrev pub Distinct : List Stage → Type 0
Distinct [] = Unit
Distinct (s ∷ ss) = (has_column ss s ≡ false) × Distinct ss

abbrev pub count_in : (DealRead → Bool) → List (List DealRead) → ℕ
count_in test [] = 0
count_in test (l ∷ ls) = length (filter test l) + count_in test ls

module _ (test : DealRead → Bool) where
  -- The deals of the columns from here on that pass a test.
  of_columns : List Stage → DealRead → Bool
  of_columns columns d = test d && has_column columns d.stage

  elsewhere :
      (s : Stage) (ss : List Stage) (d : DealRead)
      → has_column ss s ≡ false
      → stage_eq d.stage s ≡ true
      → has_column ss d.stage ≡ false
  elsewhere s [] d h e = refl
  elsewhere s (t ∷ ss) d h e =
      let same = (text_eq_iff (stage_value d.stage) (stage_value s)).0 e in
      let (apart, later) = or_false (stage_eq s t) (has_column ss s) h in
      let here : stage_eq d.stage t ≡ false = ap (λ v. text_eq v (stage_value t)) same ∙ apart in
      rw (here, elsewhere s ss d later e)

  count-column :
      (s : Stage) (ss : List Stage) (deals : List DealRead)
      → has_column ss s ≡ false
      → length (filter (of_columns (s ∷ ss)) deals)
        ≡ length (filter test (column deals s)) + length (filter (of_columns ss) deals)
  unfolding column of_columns
  count-column s ss [] h = refl
  count-column s ss (d ∷ deals) h = elim (Bool-cases (stage_eq d.stage s)) [
    | inl e ↦
        (let ih = count-column s ss deals h in
          let out = elsewhere s ss d h e in ground (arith, ih, out, e))
    | inr e ↦ (let ih = count-column s ss deals h in ground (arith, ih, e))
  ]

  none_left : (deals : List DealRead) → 0 ≡ length (filter (of_columns []) deals)
  unfolding of_columns
  none_left [] = refl
  none_left (d ∷ deals) = (let ih = none_left deals in ground (arith, ih, test d))

  -- Where no stage has two columns, a deal whose stage has one stands in exactly one, whatever of the
  -- deals is counted.
  pub count_in-board :
      (deals : List DealRead) (columns : List Stage)
      → Distinct columns
      → count_in test (board deals columns)
        ≡ length (filter (λ d. test d && has_column columns d.stage) deals)
  unfolding board of_columns
  count_in-board deals [] h = none_left deals
  count_in-board deals (s ∷ ss) h =
      ap (length (filter test (column deals s)) +◌) (count_in-board deals ss h.1)
      ∙ sym (count-column s ss deals h.0)
