-- ===== src/Forms/Amounts.antt =====
-- Amounts as typed and as sent: `money` and `toDecimal` of frontend-next/src/components/DealForm.tsx,
-- and the same pattern of frontend-next/src/components/ContactForm.tsx.
use tiny_crm.Prelude.{
  is_some, not, Solid, trim, Digits, Digits-Solid, trim_of_Solid, digit_clean, is_space, ℕ, ◌≡◌,
  ◌≢◌, refl, ap, true, false, ◌&&◌, ◌||◌, Option, none, some, [], ◌∷◌, Text, truthy, length, all,
  is_digit, Lacks, Bool-cases, inl, inr, arith, leb, ◌==◌, false-ne-true,
}
use tiny_crm.Forms.Fields.{trim_nil}
use tiny_crm.Money.{take_digits, drop_digits}
use tiny_crm.Forms.{is_money, is_fraction, comma_to_point, if_given, or_empty}

digit-ne-comma : (c : ℕ) → is_digit c ≡ true → (c == b',') ≡ false
digit-ne-comma c h = ground (arith, h)

take_digits-comma_to_point : (s : Text) → take_digits (comma_to_point s) ≡ take_digits s
unfolding take_digits comma_to_point
take_digits-comma_to_point [] = refl
take_digits-comma_to_point (c ∷ s) = ground (arith, take_digits-comma_to_point s)

all_digits-Lacks : (s : Text) → all is_digit s ≡ true → Lacks b',' s
all_digits-Lacks [] h = tt
all_digits-Lacks (c ∷ s) h = ground (arith, all_digits-Lacks s)

pub comma_to_point_of_Lacks : (s : Text) → Lacks b',' s → comma_to_point s ≡ s
unfolding comma_to_point
comma_to_point_of_Lacks [] h = refl
comma_to_point_of_Lacks (c ∷ s) h = ground (arith, comma_to_point_of_Lacks s)

-- An amount that is sent: up to twelve digits and up to two decimals behind a point.
pub record IsDecimal (s : Text) : Type 0 where
  pub money : is_money s ≡ true
  pub pointed : Lacks b',' s

fraction_digits : (c : ℕ) (s : Text) → is_fraction (c ∷ s) ≡ true → all is_digit s ≡ true
fraction_digits c s h = ground (arith, h)

pointed_fraction : (c : ℕ) (s : Text) → is_fraction (c ∷ s) ≡ true → is_fraction (b'.' ∷ s) ≡ true
pointed_fraction c s h = ground (arith, h)

fraction_pointed :
    (s : Text)
    → is_fraction s ≡ true
    → (is_fraction (comma_to_point s) ≡ true) × Lacks b',' (comma_to_point s)
unfolding comma_to_point
fraction_pointed [] h = (refl, tt)
fraction_pointed (c ∷ s) h =
    let digits : all is_digit s ≡ true = fraction_digits c s h in
    let lacks = all_digits-Lacks s digits in
    elim (Bool-cases (c == b',')) [
      | inl e ↦ rw e (pointed_fraction c s h, ((ground arith), lacks))
      | inr e ↦ rw e (rw (comma_to_point_of_Lacks s lacks) (h, (ground arith, lacks)))
    ]

comma_to_point_digit :
    (c : ℕ) (s : Text) → is_digit c ≡ true → comma_to_point (c ∷ s) ≡ c ∷ comma_to_point s
unfolding comma_to_point
comma_to_point_digit c s e = rw (digit-ne-comma c e)

point_free : (c : ℕ) → is_digit c ≡ true → c ≢ b','
point_free c e = ground (arith, e)

drop_digits_of_pointed :
    (c : ℕ) (s : Text)
    → is_digit c ≡ false
    → drop_digits (comma_to_point (c ∷ s)) ≡ comma_to_point (c ∷ s)
unfolding drop_digits comma_to_point
drop_digits_of_pointed c s e = elim (Bool-cases (c == b',')) [ inl k ↦ rw k | inr k ↦ rw k (rw e) ]

drop_digits_pointed :
    (s : Text)
    → is_fraction (drop_digits s) ≡ true
    → (is_fraction (drop_digits (comma_to_point s)) ≡ true) × Lacks b',' (comma_to_point s)
unfolding drop_digits comma_to_point
drop_digits_pointed [] h = (refl, tt)
drop_digits_pointed (c ∷ s) h = elim (Bool-cases (is_digit c)) [
  | inl e ↦
      rw (comma_to_point_digit c s e)
        (rw e (let ih = drop_digits_pointed s (rw e at h) in (ih.0, (point_free c e, ih.1))))
  | inr e ↦
      let pointed = fraction_pointed (c ∷ s) (rw e at h) in
      (rw (drop_digits_of_pointed c s e) pointed.0, pointed.1)
]

money_parts :
    (s : Text)
    → is_money s ≡ true
    → ((leb 1 (length (take_digits s)) && leb (length (take_digits s)) 12) ≡ true)
      × (is_fraction (drop_digits s) ≡ true)
unfolding is_money
money_parts s h = ground (arith, h)

-- An amount as the form takes it is sent as the API reads it.
pub comma_to_point-IsDecimal : (s : Text) → is_money s ≡ true → IsDecimal (comma_to_point s)
unfolding is_money
comma_to_point-IsDecimal s h =
    let (run, fraction) = money_parts s h in
    let pointed = drop_digits_pointed s fraction in
    record {
      money = rw (take_digits-comma_to_point s) (rw pointed.0 (rw run));
      pointed = pointed.1;
    }

all-Digits : (s : Text) → all is_digit s ≡ true → Digits s
all-Digits [] h = tt
all-Digits (c ∷ s) h = ground (arith, all-Digits s)

sep_clean : (c : ℕ) (s : Text) → is_fraction (c ∷ s) ≡ true → is_space c ≡ false
unfolding is_space
sep_clean c s h = ground (arith, h)

fraction-Solid : (s : Text) → is_fraction s ≡ true → Solid s
fraction-Solid [] h = tt
fraction-Solid (c ∷ s) h = (sep_clean c s h, Digits-Solid s (all-Digits s (fraction_digits c s h)))

drop_digits-Solid : (s : Text) → is_fraction (drop_digits s) ≡ true → Solid s
unfolding drop_digits
drop_digits-Solid [] h = tt
drop_digits-Solid (c ∷ s) h = elim (Bool-cases (is_digit c)) [
  | inl e ↦ (digit_clean c e, drop_digits-Solid s (rw e at h))
  | inr e ↦ fraction-Solid (c ∷ s) (rw e at h)
]

-- No space stands in an amount.
pub trim_of_IsDecimal : (s : Text) → IsDecimal s → trim s ≡ s
trim_of_IsDecimal s h = trim_of_Solid s (drop_digits-Solid s (money_parts s h.money).1)

pub IsDecimal-truthy : (s : Text) → IsDecimal s → truthy s ≡ true
IsDecimal-truthy [] h = absurd (false-ne-true (unfold is_money in h.money))
IsDecimal-truthy (c ∷ s) h = refl

abbrev pub Decimal : Option Text → Type 0
Decimal none = Unit
Decimal (some t) = IsDecimal t

-- A stored amount stays in its field as it is, passes the check, and is sent as it is.
pub amount_kept :
    (o : Option Text)
    → Decimal o
    → (trim (or_empty o) ≡ or_empty o)
      × ((not (truthy (or_empty o)) || is_money (or_empty o)) ≡ true)
      × (if_given comma_to_point (or_empty o) ≡ o)
amount_kept none h = (trim_nil, refl, refl)
amount_kept (some []) h = absurd (false-ne-true (IsDecimal-truthy [] h))
amount_kept (some (c ∷ s)) h =
    (trim_of_IsDecimal (c ∷ s) h, h.money, ap some (comma_to_point_of_Lacks (c ∷ s) h.pointed))

pub truthy-or_empty : (o : Option Text) → Decimal o → truthy (or_empty o) ≡ is_some o
truthy-or_empty none h = refl
truthy-or_empty (some t) h = IsDecimal-truthy t h
