-- ===== src/Money/Groups.antt =====
-- The shape and the value of a formatted amount: frontend-next/src/deals.ts, `formatMoney`.
use tiny_crm.Prelude.{
  Digits, ℕ, suc, ◌+◌, ◌-◌, ◌%◌, ◌≡◌, ◌≢◌, refl, ap, ◌∙◌, inl, inr, true, false, ◌&&◌, not, List,
  [], ◌∷◌, ◌++◌, arith, Text, split, cons_head, length, All, filter, is_digit, truthy, ◌==◌,
  Bool-cases,
}
use tiny_crm.Money.{group}

-- Groups of three digits behind a first group of one to three.
abbrev pub Thousands : ℕ → List Text → Type 0
Thousands n [] = ⊥
Thousands n (p ∷ ps) = (length p ≡ (n - 1) % 3 + 1) × All (λ q. length q ≡ 3) ps

abbrev pub concat : List Text → Text
concat [] = []
concat (p ∷ ps) = p ++ concat ps

digit-ne-comma : (c : ℕ) → is_digit c ≡ true → (c == b',') ≡ false
digit-ne-comma c h = ground arith

Thousands-cons_head :
    (c n : ℕ) (ps : List Text)
    → (suc n) % 3 ≢ 0
    → Thousands (suc n) ps
    → Thousands (suc (suc n)) (cons_head c ps)
Thousands-cons_head c n [] h t = absurd t
Thousands-cons_head c n (p ∷ ps) h t = (omega (arith, t.0), t.1)

Thousands-break :
    (c n : ℕ) (ps : List Text)
    → (suc n) % 3 ≡ 0
    → Thousands (suc n) ps
    → Thousands (suc (suc n)) ((c ∷ []) ∷ ps)
Thousands-break c n [] h t = absurd t
Thousands-break c n (p ∷ ps) h t = (omega arith, (omega (arith, t.0), t.1))

-- The commas cut a run of digits into groups of three from the right.
pub group-Thousands :
    (c : ℕ) (s : Text) → Digits (c ∷ s) → Thousands (suc (length s)) (split b',' (group (c ∷ s)))
unfolding group split
group-Thousands c [] d = rw (digit-ne-comma c d.0) (omega arith, tt)
group-Thousands c (e ∷ s) d = elim (Bool-cases (suc (length s) % 3 == 0)) [
  | inl z ↦
      rw (z, digit-ne-comma c d.0)
        (Thousands-break c (length s) _ (ground arith) (group-Thousands e s d.1))
  | inr z ↦
      rw (z, digit-ne-comma c d.0)
        (Thousands-cons_head c (length s) _ (ground arith) (group-Thousands e s d.1))
]

concat-cons_head : (c : ℕ) (ps : List Text) → concat (cons_head c ps) ≡ c ∷ concat ps
concat-cons_head c [] = refl
concat-cons_head c (p ∷ ps) = refl

concat-split-group : (s : Text) → Digits s → concat (split b',' (group s)) ≡ s
unfolding group split
concat-split-group [] d = refl
concat-split-group (c ∷ s) d = elim (Bool-cases (truthy s && length s % 3 == 0)) [
  | inl z ↦ rw (z, digit-ne-comma c d.0) (ap (c ∷◌) (concat-split-group s d.1))
  | inr z ↦
      rw (z, digit-ne-comma c d.0) (concat-cons_head c _ ∙ ap (c ∷◌) (concat-split-group s d.1))
]

-- Without its commas the grouped text is the digits.
pub strip-group : (s : Text) → Digits s → filter (λ c. not (c == b',')) (group s) ≡ s
unfolding group
strip-group [] d = refl
strip-group (c ∷ s) d = elim (Bool-cases (truthy s && length s % 3 == 0)) [
  | inl z ↦ rw (z, digit-ne-comma c d.0) (ap (c ∷◌) (strip-group s d.1))
  | inr z ↦ rw (z, digit-ne-comma c d.0) (ap (c ∷◌) (strip-group s d.1))
]

-- A run of digits is shown as itself, cut by commas into groups of three behind a first group of
-- one to three.
pub group_lem :
    (c : ℕ) (s : Text)
    → Digits (c ∷ s)
    → Thousands (suc (length s)) (split b',' (group (c ∷ s)))
      × (concat (split b',' (group (c ∷ s))) ≡ c ∷ s)
group_lem c s d = (group-Thousands c s d, concat-split-group (c ∷ s) d)
