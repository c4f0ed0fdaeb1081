-- ===== src/Prelude/Sorting.antt =====
-- `items.sort(…)` of JavaScript, which is stable: `before a b` where the comparison is not positive.
use Prim.Native.Nat.{ℕ, ◌≤◌}
use mathlib.Core.Logic.{inl, inr}
use mathlib.Core.Bool.{Bool}
use mathlib.Core.List.{List, [], ◌∷◌, Perm}
use mathlib.Core.List.Perm
use native.Mathlib.Omega.{arith}
use tiny_crm.Prelude.Tests.{if◌then◌else◌, Bool-cases, leb, leb→le}
use tiny_crm.Prelude.Lists.{All}

module _ {ℓ} {A : Type ℓ} (before : A → A → Bool) where
  -- Insertion in the place that a stable sort gives.
  unfoldable pub insert : A → List A → List A
  insert a [] = a ∷ []
  insert a (b ∷ bs) = let later = insert a bs in if before a b then a ∷ b ∷ bs else b ∷ later

  unfoldable pub sort : List A → List A
  unfolding insert
  sort [] = []
  sort (a ∷ bs) = insert a (sort bs)

  insert-Perm : (a : A) (l : List A) → Perm (insert a l) (a ∷ l)
  unfolding insert
  insert-Perm a [] = Perm.rfl
  insert-Perm a (b ∷ bs) = elim (Bool-cases (before a b)) [
    | inl e ↦ rw e Perm.rfl
    | inr e ↦ rw e (Perm.trans (Perm.cons b (insert-Perm a bs)) (Perm.swap a b bs))
  ]

  -- Nothing is lost or added.
  pub sort-Perm : (l : List A) → Perm (sort l) l
  unfolding sort
  sort-Perm [] = Perm.rfl
  sort-Perm (a ∷ l) = Perm.trans (insert-Perm a (sort l)) (Perm.cons a (sort-Perm l))

module _ {ℓ} {A : Type ℓ} (key : A → ℕ) where
  -- In the order of a key.
  abbrev pub IsSorted : List A → Type 0
  IsSorted [] = Unit
  IsSorted (a ∷ l) = All (λ b. key a ≤ key b) l × IsSorted l

  abbrev pub by_key : A → A → Bool
  by_key a b = leb (key a) (key b)

  All-weaken : (m n : ℕ) (l : List A) → m ≤ n → All (λ b. n ≤ key b) l → All (λ b. m ≤ key b) l
  All-weaken m n [] h g = tt
  All-weaken m n (b ∷ l) h g = (omega (arith, h, g.0), All-weaken m n l h g.1)

  All-insert :
      (n : ℕ) (a : A) (l : List A)
      → n ≤ key a
      → All (λ b. n ≤ key b) l
      → All (λ b. n ≤ key b) (insert by_key a l)
  unfolding insert
  All-insert n a [] h g = (h, tt)
  All-insert n a (b ∷ l) h g = elim (Bool-cases (by_key a b)) [
    | inl e ↦ rw e (h, g)
    | inr e ↦ rw e (g.0, All-insert n a l h g.1)
  ]

  insert-IsSorted : (a : A) (l : List A) → IsSorted l → IsSorted (insert by_key a l)
  unfolding insert
  insert-IsSorted a [] h = (tt, tt)
  insert-IsSorted a (b ∷ l) h = elim (Bool-cases (by_key a b)) [
    | inl e ↦
        rw e (
          (leb→le (key a) (key b) e, All-weaken (key a) (key b) l (leb→le (key a) (key b) e) h.0),
          h,
        )
    | inr e ↦ rw e (All-insert (key b) a l (ground (arith, e)) h.0, insert-IsSorted a l h.1)
  ]

  pub sort-IsSorted : (l : List A) → IsSorted (sort by_key l)
  unfolding sort
  sort-IsSorted [] = tt
  sort-IsSorted (a ∷ l) = insert-IsSorted a (sort by_key l) (sort-IsSorted l)
