-- ===== src/Pickers/Links.antt =====
-- The ids that a field of links holds (frontend-next/src/components/LinksPicker.tsx).
use tiny_crm.Prelude.{
  ◌≡◌, refl, sym, ◌∙◌, or_false, false-ne-true, Bool, true, false, not, Option, none, some, List,
  [], ◌∷◌, ◌++◌, filter, Text, text_eq, truthy, Bool-cases, inl, inr, text_eq_iff,
}
use tiny_crm.Pickers.{
  PickerOption, LinksPicker, LinksEvent, choose, write, remove, includes, is_added, choose_id,
  write_text, links_step, links_run,
}

-- Each id stands once, and none is ''.
abbrev pub AreLinks : List Text → Type 0
AreLinks [] = Unit
AreLinks (v ∷ vs) = (truthy v ≡ true) × (includes vs v ≡ false) × AreLinks vs

text_eq_sym : (s t : Text) → text_eq s t ≡ false → text_eq t s ≡ false
text_eq_sym s t h = elim (Bool-cases (text_eq t s)) [
  | inl e ↦ absurd (false-ne-true (sym h ∙ (text_eq_iff s t).1 (sym ((text_eq_iff t s).0 e))))
  | inr e ↦ e
]

includes-append :
    (vs : List Text) (v id : Text)
    → includes vs v ≡ false
    → text_eq id v ≡ false
    → includes (vs ++ (id ∷ [])) v ≡ false
includes-append [] v id h g = rw g
includes-append (w ∷ vs) v id h g = rw (
  (or_false (text_eq w v) (includes vs v) h).0,
  includes-append vs v id (or_false (text_eq w v) (includes vs v) h).1 g,
)

AreLinks-append :
    (vs : List Text) (id : Text)
    → AreLinks vs
    → truthy id ≡ true
    → includes vs id ≡ false
    → AreLinks (vs ++ (id ∷ []))
AreLinks-append [] id a t n = (t, refl, tt)
AreLinks-append (v ∷ vs) id a t n =
    let (other, fresh) = or_false (text_eq v id) (includes vs id) n in
    (a.0, includes-append vs v id a.1 (text_eq_sym v id other), AreLinks-append vs id a.2 t fresh)

includes-filter :
    (vs : List Text) (v id : Text)
    → includes vs v ≡ false
    → includes (filter (λ w. not (text_eq w id)) vs) v ≡ false
includes-filter [] v id h = refl
includes-filter (w ∷ vs) v id h = elim (Bool-cases (text_eq w id)) [
  | inl e ↦ rw e (includes-filter vs v id (or_false (text_eq w v) (includes vs v) h).1)
  | inr e ↦ rw e (
      rw (
        (or_false (text_eq w v) (includes vs v) h).0,
        includes-filter vs v id (or_false (text_eq w v) (includes vs v) h).1,
      ))
]

AreLinks-filter :
    (vs : List Text) (id : Text) → AreLinks vs → AreLinks (filter (λ w. not (text_eq w id)) vs)
AreLinks-filter [] id a = tt
AreLinks-filter (v ∷ vs) id a = elim (Bool-cases (text_eq v id)) [
  | inl e ↦ rw e (AreLinks-filter vs id a.2)
  | inr e ↦ rw e (a.0, includes-filter vs v id a.1, AreLinks-filter vs id a.2)
]

choose_id-AreLinks :
    (o : Option Text) (found : List PickerOption) (p : LinksPicker)
    → AreLinks p.value
    → AreLinks (choose_id o found p).value
choose_id-AreLinks none found p a = a
choose_id-AreLinks (some id) found p a = by_test (truthy id) (includes p.value id) refl refl
  where
    by_test :
        (t i : Bool)
        → truthy id ≡ t
        → includes p.value id ≡ i
        → AreLinks (choose_id (some id) found p).value
    by_test true false e n = rw (e, n) (AreLinks-append p.value id a e n)
    by_test true true e n = rw (e, n) a
    by_test false i e n = rw e a

write_text-value : (t : Text) (p : LinksPicker) → (write_text t p).value ≡ p.value
write_text-value t p = elim (Bool-cases (is_added p.added t)) [ inl e ↦ rw e | inr e ↦ rw e ]

links_step-AreLinks :
    (e : LinksEvent) (p : LinksPicker) → AreLinks p.value → AreLinks (links_step e p).value
unfolding links_step
links_step-AreLinks (choose id found) p a = choose_id-AreLinks id found p a
links_step-AreLinks (write t) p a = rw (write_text-value t p) a
links_step-AreLinks (remove id) p a = AreLinks-filter p.value id a

-- From a list in which no id stands twice and none is '', whatever is chosen, written and removed, and
-- in whatever order: no record is linked twice, and no id is ''.
pub links_run-AreLinks :
    (es : List LinksEvent) (p : LinksPicker) → AreLinks p.value → AreLinks (links_run es p).value
unfolding links_run
links_run-AreLinks [] p a = a
links_run-AreLinks (e ∷ es) p a = links_run-AreLinks es (links_step e p) (links_step-AreLinks e p a)
