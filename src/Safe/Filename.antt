-- ===== src/Safe/Filename.antt =====
-- Names of downloaded files: `filenameFor` of frontend-next/src/documents.ts.
use tiny_crm.Prelude.{
  false-ne-true, ℕ, ◌≡◌, ◌≢◌, refl, inl, inr, Bool, true, false, not, Bool-cases, [], ◌∷◌, ◌++◌,
  Text, codes, text_eq, text_or, trim, all, All-append, Lacks, Lacks-trim,
}
use tiny_crm.Safe.{is_forbidden, dashes, extension_for, filename_for}

allowed_differs : (x c : ℕ) → is_forbidden x ≡ true → is_forbidden c ≡ false → c ≢ x
allowed_differs x c f a e = cc (f, a, e)

all_allowed-Lacks :
    (x : ℕ) (s : Text)
    → is_forbidden x ≡ true
    → all (λ c. not (is_forbidden c)) s ≡ true
    → Lacks x s
all_allowed-Lacks x [] f h = tt
all_allowed-Lacks x (c ∷ s) f h = elim (Bool-cases (is_forbidden c)) [
  | inl e ↦ absurd (false-ne-true (rw e at h))
  | inr e ↦ (allowed_differs x c f e, all_allowed-Lacks x s f (rw e at h))
]

dashes-Lacks : (x : ℕ) (after : Bool) (s : Text) → is_forbidden x ≡ true → Lacks x (dashes after s)
unfolding dashes
dashes-Lacks x after [] f = tt
dashes-Lacks x true (c ∷ s) f = elim (Bool-cases (is_forbidden c)) [
  | inl e ↦ rw e (dashes-Lacks x true s f)
  | inr e ↦ rw e (allowed_differs x c f e, dashes-Lacks x false s f)
]
dashes-Lacks x false (c ∷ s) f = elim (Bool-cases (is_forbidden c)) [
  | inl e ↦ rw e (allowed_differs x b'-' f (unfold is_forbidden in refl), dashes-Lacks x true s f)
  | inr e ↦ rw e (allowed_differs x c f e, dashes-Lacks x false s f)
]

extension_for-Lacks :
    (x : ℕ) (format : Text) → is_forbidden x ≡ true → Lacks x (extension_for format)
unfolding extension_for
extension_for-Lacks x format f = elim (Bool-cases (text_eq format (codes "pdf"))) [
  | inl e ↦ rw e (fixed (codes "pdf") (unfold is_forbidden in refl))
  | inr e ↦ rw e (elim (Bool-cases (text_eq format (codes "markdown"))) [
    | inl d ↦ rw d (fixed (codes "md") (unfold is_forbidden in refl))
    | inr d ↦ rw d (elim (Bool-cases (text_eq format (codes "txt"))) [
      | inl b ↦ rw b (fixed (codes "txt") (unfold is_forbidden in refl))
      | inr b ↦ rw b (fixed (codes "bin") (unfold is_forbidden in refl))
    ])
  ])
]
  where
    fixed : (s : Text) → all (λ c. not (is_forbidden c)) s ≡ true → Lacks x s
    fixed s h = all_allowed-Lacks x s f h

-- No character that some operating system refuses in a file name is in the name, whatever the title
-- and the format.
pub filename_for-Lacks :
    (x : ℕ) (title format : Text) → is_forbidden x ≡ true → Lacks x (filename_for title format)
unfolding filename_for
filename_for-Lacks x title format f =
    All-append _ (text_or (trim (dashes false title)) (codes "document"))
      (codes "." ++ extension_for format)
      (stem (trim (dashes false title))
        (Lacks-trim x (dashes false title) (dashes-Lacks x false title f)))
      (allowed_differs x b'.' f (unfold is_forbidden in refl), extension_for-Lacks x format f)
  where
    stem : (s : Text) → Lacks x s → Lacks x (text_or s (codes "document"))
    stem [] h = all_allowed-Lacks x (codes "document") f (unfold is_forbidden in refl)
    stem (c ∷ s) h = h
