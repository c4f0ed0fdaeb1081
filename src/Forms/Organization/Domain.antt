-- ===== src/Forms/Organization/Domain.antt =====
-- The domain that the form of an organization sends (frontend-next/src/components/OrganizationForm.tsx).
use tiny_crm.Prelude.{
  ◌≡◌, refl, false, Option, none, some, [], ◌∷◌, Text, any, ◌==◌, ℕ, zero, suc, drop, starts_with,
  codes, Bool-cases, inl, inr, Lacks, arith, or_false,
}
use tiny_crm.Safe.{lower_text}
use tiny_crm.Forms.{after_http}
use tiny_crm.Forms.Watch.{is_line_break}
use tiny_crm.Forms.Organization.{or_whole, without_path, bare_domain}

without_path-Lacks : (s : Text) → any is_line_break s ≡ false → Lacks b'/' (without_path s)
unfolding without_path
without_path-Lacks [] h = tt
without_path-Lacks (c ∷ s) h = elim (Bool-cases (c == b'/')) [
  | inl e ↦ rw (e, (or_false (is_line_break c) (any is_line_break s) h).1) tt
  | inr e ↦ rw e (
    ground (arith, e),
    without_path-Lacks s (or_false (is_line_break c) (any is_line_break s) h).1,
  )
]

any-drop : (n : ℕ) (s : Text) → any is_line_break s ≡ false → any is_line_break (drop n s) ≡ false
any-drop zero s h = h
any-drop (suc n) [] h = refl
any-drop (suc n) (c ∷ s) h = any-drop n s (or_false (is_line_break c) (any is_line_break s) h).1

IsLine : Option Text → Type 0
IsLine none = Unit
IsLine (some t) = any is_line_break t ≡ false

after_http-IsLine : (v : Text) → any is_line_break v ≡ false → IsLine (after_http v)
unfolding after_http IsLine
after_http-IsLine v h = elim (Bool-cases (starts_with (lower_text v) (codes "http://"))) [
  | inl e ↦ rw e (any-drop 7 v h)
  | inr e ↦ rw e (elim (Bool-cases (starts_with (lower_text v) (codes "https://"))) [
    | inl f ↦ rw f (any-drop 8 v h)
    | inr f ↦ rw f tt
  ])
]

or_whole-line :
    (v : Text) (o : Option Text)
    → any is_line_break v ≡ false
    → IsLine o
    → any is_line_break (or_whole v o) ≡ false
unfolding IsLine
or_whole-line v none h g = h
or_whole-line v (some t) h g = g

-- What is kept of a pasted address of one line is a bare domain: no `/` is left of it.
pub bare_domain-Lacks : (v : Text) → any is_line_break v ≡ false → Lacks b'/' (bare_domain v)
unfolding bare_domain
bare_domain-Lacks v h =
    without_path-Lacks (or_whole v (after_http v))
      (or_whole-line v (after_http v) h (after_http-IsLine v h))
