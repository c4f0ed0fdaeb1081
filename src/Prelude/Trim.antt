-- ===== src/Prelude/Trim.antt =====
-- Laws of trimming, splitting and joining.
use Prim.Native.Nat.{ℕ}
use mathlib.Core.Path.{◌∙◌, sym, subst, ap, ◌≡◌, refl}
use mathlib.Core.Logic.{◌≢◌, inl, inr}
use mathlib.Core.Bool.{true, false}
use mathlib.Core.List.{List, [], ◌∷◌, ◌++◌}
use native.Mathlib.Omega.{arith}
use tiny_crm.Prelude.Tests.{false-ne-true, ◌==◌, ==_iff, Bool-cases}
use tiny_crm.Prelude.Lists.{All}
use tiny_crm.Prelude.Texts.{
  truthy, Text, is_space, trim_start, keep_end, trim_end, trim, split, cons_head,
}

-- No space at the head.
abbrev pub HeadClean : Text → Type 0
HeadClean [] = Unit
HeadClean (c ∷ s) = is_space c ≡ false

trim_start-HeadClean : (s : Text) → HeadClean (trim_start s)
unfolding trim_start
trim_start-HeadClean [] = tt
trim_start-HeadClean (c ∷ s) = elim (Bool-cases (is_space c)) [
  | inl e ↦ rw e (trim_start-HeadClean s)
  | inr e ↦ rw e e
]

trim_start_of_HeadClean : (s : Text) → HeadClean s → trim_start s ≡ s
unfolding trim_start
trim_start_of_HeadClean [] h = refl
trim_start_of_HeadClean (c ∷ s) h = rw h

pub keep_end_clean : (c : ℕ) (t : Text) → is_space c ≡ false → keep_end c t ≡ c ∷ t
unfolding keep_end
keep_end_clean c [] h = rw h
keep_end_clean c (d ∷ t) h = refl

trim_end-keep_end : (c : ℕ) (t : Text) → trim_end t ≡ t → trim_end (keep_end c t) ≡ keep_end c t
unfolding trim_end keep_end
trim_end-keep_end c [] h = elim (Bool-cases (is_space c)) [ inl e ↦ rw e | inr e ↦ rw e (rw e) ]
trim_end-keep_end c (d ∷ t) h = rw h

trim_end_idem : (s : Text) → trim_end (trim_end s) ≡ trim_end s
unfolding trim_end keep_end
trim_end_idem [] = refl
trim_end_idem (c ∷ s) = trim_end-keep_end c (trim_end s) (trim_end_idem s)

trim_end-HeadClean : (s : Text) → HeadClean s → HeadClean (trim_end s)
unfolding trim_end keep_end
trim_end-HeadClean [] h = tt
trim_end-HeadClean (c ∷ s) h = rw (keep_end_clean c (trim_end s) h) h

-- A trimmed text has nothing left to trim.
pub trim_idem : (s : Text) → trim (trim s) ≡ trim s
unfolding trim
trim_idem s =
    rw (trim_start_of_HeadClean (trim s) (trim_end-HeadClean _ (trim_start-HeadClean s)))
      (trim_end_idem (trim_start s))

-- A leading space is trimmed away.
pub trim-space : (c : ℕ) (s : Text) → is_space c ≡ true → trim (c ∷ s) ≡ trim s
unfolding trim
trim-space c s h = rw h

-- A code unit does not occur in a text.
abbrev pub Lacks : ℕ → Text → Type 0
Lacks x s = All (λ c. c ≢ x) s

pub Lacks-trim_start : (x : ℕ) (s : Text) → Lacks x s → Lacks x (trim_start s)
unfolding trim_start
Lacks-trim_start x [] h = tt
Lacks-trim_start x (c ∷ s) h = elim (Bool-cases (is_space c)) [
  | inl e ↦ rw e (Lacks-trim_start x s h.1)
  | inr e ↦ rw e h
]

Lacks-keep_end : (x c : ℕ) (t : Text) → c ≢ x → Lacks x t → Lacks x (keep_end c t)
unfolding keep_end
Lacks-keep_end x c [] n h = elim (Bool-cases (is_space c)) [
  | inl e ↦ rw e tt
  | inr e ↦ rw e (n, tt)
]
Lacks-keep_end x c (d ∷ t) n h = (n, h)

Lacks-trim_end : (x : ℕ) (s : Text) → Lacks x s → Lacks x (trim_end s)
unfolding trim_end keep_end
Lacks-trim_end x [] h = tt
Lacks-trim_end x (c ∷ s) h = Lacks-keep_end x c (trim_end s) h.0 (Lacks-trim_end x s h.1)

pub Lacks-trim : (x : ℕ) (s : Text) → Lacks x s → Lacks x (trim s)
unfolding trim
Lacks-trim x s h = Lacks-trim_end x (trim_start s) (Lacks-trim_start x s h)

All-Lacks-cons_head :
    (x c : ℕ) (ps : List Text) → c ≢ x → All (Lacks x) ps → All (Lacks x) (cons_head c ps)
All-Lacks-cons_head x c [] n h = ((n, tt), tt)
All-Lacks-cons_head x c (p ∷ ps) n h = ((n, h.0), h.1)

-- No part of a split holds the separator.
pub split-Lacks : (x : ℕ) (s : Text) → All (Lacks x) (split x s)
unfolding split
split-Lacks x [] = (tt, tt)
split-Lacks x (c ∷ s) = elim (Bool-cases (c == x)) [
  | inl e ↦ rw e (tt, split-Lacks x s)
  | inr e ↦
      rw e (All-Lacks-cons_head x c (split x s) (λ q. cc (e, (==_iff c x).1 q)) (split-Lacks x s))
]

-- A text without the separator is one part; with one behind it, the first part.
pub split_of_Lacks : (x : ℕ) (s : Text) → Lacks x s → split x s ≡ s ∷ []
unfolding split
split_of_Lacks x [] h = refl
split_of_Lacks x (c ∷ s) h = ground (arith, split_of_Lacks x s h.1)

pub split-append : (x : ℕ) (s t : Text) → Lacks x s → split x (s ++ (x ∷ t)) ≡ s ∷ split x t
unfolding split
split-append x [] t h = ground arith
split-append x (c ∷ s) t h = ground (arith, split-append x s t h.1)

HeadClean-trim : (s : Text) → trim s ≡ s → HeadClean s
unfolding trim
HeadClean-trim s h = subst HeadClean h (trim_end-HeadClean (trim_start s) (trim_start-HeadClean s))

trim_end_of_trim : (s : Text) → trim s ≡ s → trim_end s ≡ s
unfolding trim
trim_end_of_trim s h = ap trim_end (sym (trim_start_of_HeadClean s (HeadClean-trim s h))) ∙ h

trim_end-append : (s t : Text) → truthy t ≡ true → trim_end t ≡ t → trim_end (s ++ t) ≡ s ++ t
unfolding trim_end keep_end
trim_end-append [] t f h = h
trim_end-append (c ∷ s) t f h = rw (trim_end-append s t f h) (keep_end-append c s t f)
  where
    keep_end-append : (c : ℕ) (s t : Text) → truthy t ≡ true → keep_end c (s ++ t) ≡ c ∷ (s ++ t)
    keep_end-append c [] [] f = absurd (false-ne-true f)
    keep_end-append c [] (d ∷ t) f = refl
    keep_end-append c (d ∷ s) t f = refl

HeadClean-append : (s t : Text) → truthy s ≡ true → HeadClean s → HeadClean (s ++ t)
HeadClean-append [] t f h = absurd (false-ne-true f)
HeadClean-append (c ∷ s) t f h = h

-- Between two trimmed texts there may be spaces.
pub trim-append :
    (s m t : Text)
    → truthy s ≡ true
    → trim s ≡ s
    → truthy t ≡ true
    → trim t ≡ t
    → trim (s ++ (m ++ t)) ≡ s ++ (m ++ t)
unfolding trim
trim-append s m t f h g k =
    ap trim_end
      (trim_start_of_HeadClean (s ++ (m ++ t)) (HeadClean-append s (m ++ t) f (HeadClean-trim s h)))
    ∙ trim_end-append s (m ++ t) (truthy-append m t g)
        (trim_end-append m t g (trim_end_of_trim t k))
  where
    truthy-append : (m t : Text) → truthy t ≡ true → truthy (m ++ t) ≡ true
    truthy-append [] t g = g
    truthy-append (c ∷ m) t g = refl
