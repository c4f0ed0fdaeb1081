-- ===== src/Forms/Fields.antt =====
-- Single fields: what they keep of a stored value, and what they send.
use mathlib.Core.Option.{some-injective, none-ne-some}
use tiny_crm.Prelude.{
  Solid, is_space, suc, ◌≢◌, ℕ, ◌≡◌, ◌≤◌, refl, ap, Bool, true, ◌&&◌, Option, none, some, List, [],
  ◌∷◌, Text, truthy, trim, length, all, Bool-cases, inl, inr, arith, leb, false-ne-true,
}
use tiny_crm.Safe.{is_letter}
use tiny_crm.Forms.{
  Issue, Check, failing, when_valid, or_null, or_empty, is_letters, upper, upper_text,
}

-- A stored text is not '', and has no space around it.
abbrev pub IsClean : Option Text → Type 0
IsClean none = Unit
IsClean (some t) = (truthy t ≡ true) × (trim t ≡ t)

pub trim_nil : trim [] ≡ []
unfolding trim
trim_nil = refl

-- A field that is left as it was filled sends what was stored.
pub or_null-or_empty : (x : Option Text) → IsClean x → or_null (trim (or_empty x)) ≡ x
or_null-or_empty none h = rw trim_nil
or_null-or_empty (some []) h = absurd (false-ne-true h.0)
or_null-or_empty (some (c ∷ s)) h = rw h.1

-- A trimmed field sends a clean text, or none.
pub or_null-IsClean : (t : Text) → trim t ≡ t → IsClean (or_null t)
or_null-IsClean [] h = tt
or_null-IsClean (c ∷ t) h = (refl, h)

pub trim-or_empty : (x : Option Text) → IsClean x → trim (or_empty x) ≡ or_empty x
trim-or_empty none h = trim_nil
trim-or_empty (some t) h = h.1

pub or_null-or_empty_untrimmed : (x : Option Text) → IsClean x → or_null (or_empty x) ≡ x
or_null-or_empty_untrimmed none h = refl
or_null-or_empty_untrimmed (some []) h = absurd (false-ne-true h.0)
or_null-or_empty_untrimmed (some (c ∷ s)) h = refl

abbrev pub AllPass : List Check → Type 0
AllPass [] = Unit
AllPass (c ∷ cs) = (c.passes ≡ true) × AllPass cs

failing-nil : (cs : List Check) → failing cs ≡ [] → AllPass cs
unfolding failing
failing-nil [] h = tt
failing-nil (c ∷ cs) h = elim (Bool-cases c.passes) [
  | inl e ↦ (e, failing-nil cs (rw e at h))
  | inr e ↦ absurd (cons_ne_nil (rw e at h))
]
  where
    cons_ne_nil : c.issue ∷ failing cs ≢ []
    cons_ne_nil k = ground (arith, k)

pub failing_of_AllPass : (cs : List Check) → AllPass cs → failing cs ≡ []
unfolding failing
failing_of_AllPass [] h = refl
failing_of_AllPass (c ∷ cs) h = rw h.0 (failing_of_AllPass cs h.1)

-- What is handed on has passed every check.
pub when_valid-some {ℓ} :
    {A : Type ℓ} (cs : List Check) (body b : A)
    → when_valid (failing cs) body ≡ some b
    → AllPass cs × (body ≡ b)
when_valid-some cs body b h = let (e, same) = by_issues (failing cs) h in (failing-nil cs e, same)
  where
    by_issues : (l : List Issue) → when_valid l body ≡ some b → (l ≡ []) × (body ≡ b)
    by_issues [] k = (refl, some-injective _ _ k)
    by_issues (i ∷ l) k = absurd (none-ne-some _ k)

module _ (c : ℕ) where
  upper_bounds : is_letter c ≡ true → (b'A' ≤ upper c) × (upper c ≤ b'Z')
  upper_bounds h = ground (arith, h)

-- Upper-case letters only.
abbrev pub is_capital : ℕ → Bool
is_capital c = leb b'A' c && leb c b'Z'

pub all-is_capital : (v : Text) → all is_letter v ≡ true → all is_capital (upper_text v) ≡ true
all-is_capital [] h = refl
all-is_capital (c ∷ v) h = ground (arith, upper_bounds c, all-is_capital v)

pub length-upper_text : (v : Text) → length (upper_text v) ≡ length v
length-upper_text [] = refl
length-upper_text (c ∷ v) = ap suc (length-upper_text v)

pub upper_text_of_capitals : (v : Text) → all is_capital v ≡ true → upper_text v ≡ v
upper_text_of_capitals [] h = refl
upper_text_of_capitals (c ∷ v) h = ground (arith, upper_text_of_capitals v)

pub letters_of_capitals : (v : Text) → all is_capital v ≡ true → all is_letter v ≡ true
letters_of_capitals [] h = refl
letters_of_capitals (c ∷ v) h = ground (arith, letters_of_capitals v)

pub capitals-Solid : (s : Text) → all is_capital s ≡ true → Solid s
unfolding is_space
capitals-Solid [] h = tt
capitals-Solid (c ∷ s) h = ground (arith, capitals-Solid s)

pub capital_letters :
    (s : Text) → (length s ≡ 3) × (all is_capital s ≡ true) → is_letters 3 s ≡ true
unfolding is_letters
capital_letters s h = ground (arith, letters_of_capitals s)
