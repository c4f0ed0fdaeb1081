-- ===== src/Sharing/Parts.antt =====
-- The line that a share becomes (frontend-next/src/routes/_authed/capture.tsx).
use tiny_crm.Prelude.{
  sym, or_false, false-ne-true, ◌≡◌, ◌∙◌, sym, text_eq_iff, text_eq_refl, or_false, false-ne-true,
  refl, true, false, ◌&&◌, ◌||◌, not, Option, none, some, List, [], ◌∷◌, ◌++◌, Text, text_eq,
  truthy, trim_idem, All, All-append, arith, Bool-cases, inl, inr,
}
use tiny_crm.Forms.Fields.{IsClean}
use tiny_crm.Sharing.{includes, trimmed, parts_seen}

-- No text stands twice.
abbrev pub Distinct : List Text → Type 0
Distinct [] = Unit
Distinct (t ∷ ts) = (includes ts t ≡ false) × Distinct ts

-- A part that is given and not blank is there.
abbrev pub IsThere : List Text → Option Text → Type 0
IsThere ts part = (not (truthy (trimmed part)) || includes ts (trimmed part)) ≡ true

includes-append :
    (seen : List Text) (s t : Text) → includes (seen ++ s ∷ []) t ≡ (includes seen t || text_eq s t)
includes-append [] s t = ground (arith, text_eq s t)
includes-append (u ∷ seen) s t = ground (arith, includes-append seen s t)

text_eq-false : (s t : Text) → text_eq s t ≡ false → text_eq t s ≡ false
text_eq-false s t h = elim (Bool-cases (text_eq t s)) [
  | inl e ↦ absurd (false-ne-true (sym h ∙ (text_eq_iff s t).1 (sym ((text_eq_iff t s).0 e))))
  | inr e ↦ e
]

Distinct-append :
    (seen : List Text) (t : Text)
    → includes seen t ≡ false
    → Distinct seen
    → Distinct (seen ++ t ∷ [])
Distinct-append [] t h d = (refl, tt)
Distinct-append (u ∷ seen) t h d =
    let (apart, later) = or_false (text_eq u t) (includes seen t) h in
    (
      includes-append seen t u ∙ ground (arith, d.0, text_eq-false u t apart),
      Distinct-append seen t later d.1,
    )

includes-parts_seen :
    (parts : List (Option Text)) (seen : List Text) (t : Text)
    → includes seen t ≡ true
    → includes (parts_seen parts seen) t ≡ true
unfolding parts_seen
includes-parts_seen [] seen t h = h
includes-parts_seen (part ∷ parts) seen t h =
    elim (Bool-cases (truthy (trimmed part) && not (includes seen (trimmed part)))) [
      | inl e ↦ rw e (
          includes-parts_seen parts (seen ++ trimmed part ∷ []) t
            (includes-append seen (trimmed part) t ∙ ground (arith, h)))
      | inr e ↦ rw e (includes-parts_seen parts seen t h)
    ]

trimmed-IsClean :
    (part : Option Text) → truthy (trimmed part) ≡ true → IsClean (some (trimmed part))
trimmed-IsClean none h = (h, trim_idem [])
trimmed-IsClean (some t) h = (h, trim_idem t)

-- The parts of the line: clean texts, none of them twice, and every part that is given and not blank.
pub record AreParts (parts : List (Option Text)) (ts : List Text) : Type 0 where
  pub clean : All (λ t. IsClean (some t)) ts
  pub distinct : Distinct ts
  pub complete : All (IsThere ts) parts

added :
    (part : Option Text) (parts : List (Option Text)) (ts : List Text)
    → IsThere ts part
    → AreParts parts ts
    → AreParts (part ∷ parts) ts
added part parts ts there h = record {
  clean = h.clean;
  distinct = h.distinct;
  complete = (there, h.complete);
}

pushed-IsThere :
    (part : Option Text) (parts : List (Option Text)) (seen : List Text)
    → IsThere (parts_seen parts (seen ++ trimmed part ∷ [])) part
pushed-IsThere part parts seen =
    let here =
      includes-append seen (trimmed part) (trimmed part)
      ∙ ground (arith, text_eq_refl (trimmed part)) in
    let kept = includes-parts_seen parts (seen ++ trimmed part ∷ []) (trimmed part) here in
    ground (arith, kept)

passed-IsThere :
    (part : Option Text) (parts : List (Option Text)) (seen : List Text)
    → (truthy (trimmed part) && not (includes seen (trimmed part))) ≡ false
    → IsThere (parts_seen parts seen) part
passed-IsThere part parts seen e = elim (Bool-cases (includes seen (trimmed part))) [
  | inl f ↦ (let kept = includes-parts_seen parts seen (trimmed part) f in ground (arith, kept))
  | inr f ↦ ground (arith, e, f)
]

parts_of :
    (parts : List (Option Text)) (seen : List Text)
    → All (λ t. IsClean (some t)) seen
    → Distinct seen
    → AreParts parts (parts_seen parts seen)
unfolding parts_seen
parts_of [] seen c d = record { clean = c; distinct = d; complete = tt }
parts_of (part ∷ parts) seen c d =
    elim (Bool-cases (truthy (trimmed part) && not (includes seen (trimmed part)))) [
      | inl e ↦ rw e (
          added part parts _ (pushed-IsThere part parts seen) (
            parts_of parts (seen ++ trimmed part ∷ [])
              (All-append (λ t. IsClean (some t)) seen (trimmed part ∷ []) c
                (trimmed-IsClean part (ground (arith, e)), tt))
              (Distinct-append seen (trimmed part) (ground (arith, e)) d)))
      | inr e ↦
          rw e (added part parts _ (passed-IsThere part parts seen e) (parts_of parts seen c d))
    ]

-- The line of a share has every part that is given and not blank, trimmed, and none of them twice.
pub parts_seen-AreParts : (parts : List (Option Text)) → AreParts parts (parts_seen parts [])
parts_seen-AreParts parts = parts_of parts [] tt tt
