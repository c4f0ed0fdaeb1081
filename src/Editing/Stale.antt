-- ===== src/Editing/Stale.antt =====
-- What an edit page does about a refused save (frontend-next/src/useEditVersion.ts).
use tiny_crm.Prelude.{
  ℕ, ◌≡◌, refl, inl, inr, true, Bool-cases, ◌==◌, ==_iff, Option, none, some, is_some, [], ◌∷◌,
  ◌++◌, Text, codes, starts_with, includes,
}
use tiny_crm.Editing.{
  World, reload, press, arrive, is_stale_save, form_error, check_version, next, run, api_error,
}

-- What occurs in a text occurs in a longer one.
includes-append : (s t u : Text) → includes t u ≡ true → includes (s ++ t) u ≡ true
unfolding includes
includes-append [] t u h = h
includes-append (c ∷ s) t u h = elim (Bool-cases (starts_with (c ∷ (s ++ t)) u)) [
  | inl e ↦ rw e
  | inr e ↦ rw e (includes-append s t u h)
]

stale_message : Text → Text
stale_message label =
    label ++ codes " was changed elsewhere since you opened it — reload to see the latest version"

is_stale_save-message :
    (label : Text) → is_stale_save (some (api_error 409 (stale_message label))) ≡ true
unfolding is_stale_save stale_message includes starts_with
is_stale_save-message label = includes-append label _ (codes "changed elsewhere") refl

-- Each refusal of `check_version`, whatever the record's label, is one that the page takes for a stale
-- save, so the notice with "Load latest version" explains it and the form does not show it as its own.
pub check_version-is_stale_save :
    (expected : Option ℕ) (current : ℕ) (label : Text)
    → (is_stale_save (check_version expected current label)
        ≡ is_some (check_version expected current label))
      × (form_error (check_version expected current label) ≡ none)
unfolding check_version form_error stale_message
check_version-is_stale_save none current label = (refl, refl)
check_version-is_stale_save (some n) current label = elim (Bool-cases (n == current)) [
  | inl e ↦ rw e (refl, refl)
  | inr e ↦ rw e (is_stale_save-message label, rw (is_stale_save-message label))
]

module _ {ℓ} {A : Type ℓ} where
  -- After "Load latest version" has fetched the record, with no save on its way, a save goes through if
  -- no other one comes between: it becomes the record's next version.
  pub reload-accepted :
      (label : Text) (body : A) (w : World A)
      → w.page.saving ≡ none
      → (run label (reload true ∷ press body ∷ arrive ∷ []) w).server ≡ next w.server body
  unfolding run check_version
  reload-accepted label body w h =
      let same : (w.server.version == w.server.version) ≡ true =
        (==_iff w.server.version w.server.version).1 refl in
      rw h (rw same)
