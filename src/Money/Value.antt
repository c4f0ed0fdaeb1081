-- ===== src/Money/Value.antt =====
-- A formatted amount reads back as the amount that was sent: frontend-next/src/deals.ts.
use mathlib.Core.Option.{some-injective}
use tiny_crm.Prelude.{
  ap₂, Digits, ℕ, ◌-◌, zero, suc, ◌≡◌, refl, ap, ◌∙◌, subst, ◌⊎◌, inl, inr, true, false, ◌&&◌, not,
  Option, none, some, [], ◌∷◌, ◌++◌, arith, Text, codes, length, All-append, filter, all, is_digit,
  truthy, ◌==◌, Bool-cases, pad_end, replicate, trim, split,
}
use tiny_crm.Money.{
  Amount, take_digits, drop_digits, match_fraction, with_fraction, match_whole, match_amount, group,
  show_amount, format_money,
}
use tiny_crm.Money.Groups.{strip-group, Thousands, group_lem}

-- What the pattern captures: an optional minus, at least one digit, digits.
pub record IsAmount (a : Amount) : Type 0 where
  pub signed : (a.sign ≡ []) ⊎ (a.sign ≡ codes "-")
  pub filled : truthy a.whole ≡ true
  pub whole_digits : Digits a.whole
  pub fraction_digits : Digits a.fraction

take_digits-Digits : (s : Text) → Digits (take_digits s)
unfolding take_digits
take_digits-Digits [] = tt
take_digits-Digits (c ∷ s) = elim (Bool-cases (is_digit c)) [
  | inl e ↦ rw e (e, take_digits-Digits s)
  | inr e ↦ rw e tt
]

all-Digits : (s : Text) → all is_digit s ≡ true → Digits s
all-Digits [] h = tt
all-Digits (c ∷ s) h = (ground arith, all-Digits s (ground arith))

Digits-all : (s : Text) → Digits s → all is_digit s ≡ true
Digits-all [] d = refl
Digits-all (c ∷ s) d = rw (d.0, Digits-all s d.1)

match_fraction-Digits : (s : Text) {f : Text} → match_fraction s ≡ some f → Digits f
unfolding match_fraction
match_fraction-Digits [] {f} e = let h : [] ≡ f = cc in rw (← h) tt
match_fraction-Digits (c ∷ s) {f} e = elim (Bool-cases (c == b'.' && all is_digit s)) [
  | inl q ↦ let h : s ≡ f = ground arith in rw (← h) (all-Digits s (ground arith))
  | inr q ↦ cc (rw q at e)
]

with_fraction-IsAmount :
    (sign whole : Text) (o : Option Text) {a : Amount}
    → (sign ≡ []) ⊎ (sign ≡ codes "-")
    → truthy whole ≡ true
    → Digits whole
    → ((f : Text) → o ≡ some f → Digits f)
    → with_fraction sign whole o ≡ some a
    → IsAmount a
with_fraction-IsAmount sign whole none s t d h e = cc
with_fraction-IsAmount sign whole (some f) s t d h e =
    subst IsAmount (some-injective _ _ e)
      (record { signed = s; filled = t; whole_digits = d; fraction_digits = h f refl })

match_whole-IsAmount :
    (sign s : Text) {a : Amount}
    → (sign ≡ []) ⊎ (sign ≡ codes "-")
    → match_whole sign s ≡ some a
    → IsAmount a
unfolding match_whole
match_whole-IsAmount sign s k e = elim (Bool-cases (truthy (take_digits s))) [
  | inl t ↦
      with_fraction-IsAmount sign (take_digits s) (match_fraction (drop_digits s)) k t
        (take_digits-Digits s) (λ f h. match_fraction-Digits (drop_digits s) h) (rw t at e)
  | inr t ↦ cc (rw t at e)
]

-- What the pattern captures are an optional minus and digits.
pub match_amount-IsAmount : (s : Text) {a : Amount} → match_amount s ≡ some a → IsAmount a
unfolding match_amount
match_amount-IsAmount [] e = match_whole-IsAmount [] [] (inl refl) e
match_amount-IsAmount (c ∷ s) e = elim (Bool-cases (c == b'-')) [
  | inl q ↦ match_whole-IsAmount (codes "-") s (inr refl) (rw q at e)
  | inr q ↦ match_whole-IsAmount [] (c ∷ s) (inl refl) (rw q at e)
]

take_digits-point : (w f : Text) → Digits w → take_digits (w ++ (b'.' ∷ f)) ≡ w
unfolding take_digits
take_digits-point [] f d = refl
take_digits-point (c ∷ w) f d = rw d.0 (ap (c ∷◌) (take_digits-point w f d.1))

drop_digits-point : (w f : Text) → Digits w → drop_digits (w ++ (b'.' ∷ f)) ≡ b'.' ∷ f
unfolding drop_digits
drop_digits-point [] f d = refl
drop_digits-point (c ∷ w) f d = rw d.0 (drop_digits-point w f d.1)

match_whole-point :
    (sign w f : Text)
    → truthy w ≡ true
    → Digits w
    → Digits f
    → match_whole sign (w ++ (b'.' ∷ f)) ≡ some (record { sign = sign; whole = w; fraction = f })
unfolding match_whole match_fraction
match_whole-point sign w f t d k =
    rw (take_digits-point w f d, t) (rw (drop_digits-point w f d) (rw (Digits-all f k)))

-- A digit is no minus.
digit-ne-minus : (c : ℕ) → is_digit c ≡ true → (c == b'-') ≡ false
digit-ne-minus c h = ground arith

match_amount-point :
    (a : Amount) → IsAmount a → match_amount (a.sign ++ (a.whole ++ (b'.' ∷ a.fraction))) ≡ some a
unfolding match_amount
match_amount-point a h = go a.sign a.whole h.signed h.filled h.whole_digits
  where
    go :
        (sign w : Text)
        → (sign ≡ []) ⊎ (sign ≡ codes "-")
        → truthy w ≡ true
        → Digits w
        → match_amount (sign ++ (w ++ (b'.' ∷ a.fraction)))
          ≡ some (record { sign = sign; whole = w; fraction = a.fraction })
    go sign [] s t d = cc
    go sign (c ∷ w) (inl e) t d =
        rw e (
          rw (digit-ne-minus c d.0) (match_whole-point [] (c ∷ w) a.fraction t d h.fraction_digits))
    go sign (c ∷ w) (inr e) t d =
        rw e (match_whole-point (codes "-") (c ∷ w) a.fraction t d h.fraction_digits)

abbrev pub strip : Text → Text
strip s = filter (λ c. not (c == b',')) s

strip-append : (s t : Text) → strip (s ++ t) ≡ strip s ++ strip t
strip-append [] t = refl
strip-append (c ∷ s) t = ground (arith, strip-append s t)

strip-Digits : (s : Text) → Digits s → strip s ≡ s
strip-Digits [] d = refl
strip-Digits (c ∷ s) d = ground (arith, strip-Digits s d.1)

replicate-Digits : (n : ℕ) → Digits (replicate n b'0')
replicate-Digits zero = tt
replicate-Digits (suc n) = (refl, replicate-Digits n)

strip-sign : (s : Text) → (s ≡ []) ⊎ (s ≡ codes "-") → strip s ≡ s
strip-sign s (inl e) = rw e
strip-sign s (inr e) = rw e

strip_shown :
    (a : Amount)
    → IsAmount a
    → Digits (pad_end a.fraction 2 b'0')
    → strip (show_amount a) ≡ a.sign ++ (a.whole ++ (b'.' ∷ pad_end a.fraction 2 b'0'))
unfolding show_amount
strip_shown a h padded =
    strip-append a.sign _
    ∙ ap₂ ◌++◌ (strip-sign a.sign h.signed) (
        strip-append (group a.whole) _
        ∙ ap₂ ◌++◌ (strip-group a.whole h.whole_digits) (ap (b'.' ∷◌) (strip-Digits _ padded)))

-- A formatted amount, read back without its commas, is the amount that was matched: the same sign
-- and the same digits, the fraction filled up with zeros to two places.
pub match_amount-show_amount :
    (s : Text) (a : Amount)
    → match_amount s ≡ some a
    → match_amount (strip (show_amount a))
      ≡ some (record a { fraction = pad_end a.fraction 2 b'0' })
unfolding show_amount
match_amount-show_amount s a e =
    let h = match_amount-IsAmount s e in
    let padded : Digits (pad_end a.fraction 2 b'0') =
      All-append (λ c. is_digit c ≡ true) a.fraction _ h.fraction_digits
        (replicate-Digits (2 - length a.fraction)) in
    rw (strip_shown a h padded) (
      match_amount-point (record a { fraction = pad_end a.fraction 2 b'0' })
        (record {
          signed = h.signed;
          filled = h.filled;
          whole_digits = h.whole_digits;
          fraction_digits = padded;
        }))

-- What is shown for an amount that the pattern matches is a text for it, a space and the currency.
-- Without its commas that text is matched again, with the same sign and whole digits and with the
-- fraction filled up to two places; and the whole digits stand in groups of three.
pub format_money_lem :
    (amount currency : Text) (a : Amount)
    → match_amount (trim amount) ≡ some a
    → (format_money amount currency ≡ show_amount a ++ (codes " " ++ currency))
      × (match_amount (strip (show_amount a))
          ≡ some (record a { fraction = pad_end a.fraction 2 b'0' }))
      × Thousands (length a.whole) (split b',' (group a.whole))
unfolding format_money
format_money_lem amount currency a e = (
  rw (e, format_money),
  match_amount-show_amount (trim amount) a e,
  grouped a.whole (match_amount-IsAmount (trim amount) e).filled
      (match_amount-IsAmount (trim amount) e).whole_digits,
)
  where
    grouped : (w : Text) → truthy w ≡ true → Digits w → Thousands (length w) (split b',' (group w))
    grouped [] t d = cc
    grouped (c ∷ s) t d = (group_lem c s d).0
