-- ===== src/Format/Tags.antt =====
-- The tags of a form's text: frontend-next/src/format.ts, `splitTags`, and the `join(', ')` by which
-- frontend-next/src/components/TagPicker.tsx stores them.
use tiny_crm.Prelude.{
  trim-append, false-ne-true, ◌≡◌, refl, ap, inl, inr, true, List, [], ◌∷◌, map, Text, codes,
  truthy, trim, split, join, filter, All, Lacks, Lacks-trim, trim_idem, trim-space, split-Lacks,
  split_of_Lacks, split-append, cons_head, trim_start, trim_end, ◌∙◌, Bool-cases, is_space,
}
use tiny_crm.Format.{split_tags}

-- A stored tag: not blank, trimmed, without a comma.
pub record IsTag (t : Text) : Type 0 where
  pub filled : truthy t ≡ true
  pub trimmed : trim t ≡ t
  pub comma_free : Lacks b',' t

keep : List Text → List Text
keep ps = filter truthy (map trim ps)

keep-IsTag : (ps : List Text) → All (Lacks b',') ps → All IsTag (keep ps)
unfolding keep
keep-IsTag [] h = tt
keep-IsTag (p ∷ ps) h = elim (Bool-cases (truthy (trim p))) [
  | inl e ↦ rw e (
    record { filled = e; trimmed = trim_idem p; comma_free = Lacks-trim b',' p h.0 },
    keep-IsTag ps h.1,
  )
  | inr e ↦ rw e (keep-IsTag ps h.1)
]

-- Every tag that a text is split into is filled, trimmed and free of commas.
pub split_tags-IsTag : (text : Text) → All IsTag (split_tags text)
unfolding split_tags keep
split_tags-IsTag text = keep-IsTag (split b',' text) (split-Lacks b',' text)

-- How the tags are stored in the form's field.
unfoldable pub join_tags : List Text → Text
join_tags tags = join (codes ", ") tags

space_32 : is_space 32 ≡ true
unfolding is_space
space_32 = refl

keep-IsTag_cons : (t : Text) (ps : List Text) → IsTag t → keep (t ∷ ps) ≡ t ∷ keep ps
unfolding keep
keep-IsTag_cons t ps h = rw (h.trimmed, h.filled)

keep-space : (t : Text) (ps : List Text) → keep ((32 ∷ t) ∷ ps) ≡ keep (t ∷ ps)
unfolding keep
keep-space t ps = rw (trim-space 32 t space_32)

keep-cons_head : (ps : List Text) → keep (cons_head 32 ps) ≡ keep ps
unfolding keep
keep-cons_head [] = unfold trim trim_start trim_end is_space in refl
keep-cons_head (p ∷ ps) = keep-space p ps

keep-split_space : (s : Text) → keep (split b',' (32 ∷ s)) ≡ keep (split b',' s)
unfolding split
keep-split_space s = keep-cons_head (split b',' s)

keep-join_tags : (ts : List Text) → All IsTag ts → keep (split b',' (join_tags ts)) ≡ ts
unfolding join_tags join
keep-join_tags [] h = unfold split keep trim trim_start trim_end is_space in refl
keep-join_tags (t ∷ []) h =
    rw (split_of_Lacks b',' t h.0.comma_free)
      (keep-IsTag_cons t [] h.0 ∙ ap (t ∷◌) (unfold keep in refl))
keep-join_tags (t ∷ u ∷ us) h = rw (split-append b',' t (32 ∷ join_tags (u ∷ us)) h.0.comma_free) (
    rw (keep-IsTag_cons t (split b',' (32 ∷ join_tags (u ∷ us))) h.0)
      (rw (keep-split_space (join_tags (u ∷ us))) (rw (keep-join_tags (u ∷ us) h.1))))

-- The tags that a form stores are the tags that it reads back.
pub split_tags-join_tags : (tags : List Text) → All IsTag tags → split_tags (join_tags tags) ≡ tags
unfolding split_tags keep
split_tags-join_tags tags h = keep-join_tags tags h

-- Storing and reading once more changes nothing, whatever was typed.
pub split_tags_idem : (text : Text) → split_tags (join_tags (split_tags text)) ≡ split_tags text
split_tags_idem text = split_tags-join_tags (split_tags text) (split_tags-IsTag text)

join_tags-filled : (u : Text) (us : List Text) → IsTag u → truthy (join_tags (u ∷ us)) ≡ true
unfolding join join_tags
join_tags-filled u [] h = h.filled
join_tags-filled [] (v ∷ us) h = absurd (false-ne-true h.filled)
join_tags-filled (c ∷ u) (v ∷ us) h = refl

-- A field of tags as a form stores it has no space around it.
pub trim-join_tags : (tags : List Text) → All IsTag tags → trim (join_tags tags) ≡ join_tags tags
unfolding join trim join_tags
trim-join_tags [] h = refl
trim-join_tags (t ∷ []) h = h.0.trimmed
trim-join_tags (t ∷ u ∷ us) h =
    trim-append t (codes ", ") (join_tags (u ∷ us)) h.0.filled h.0.trimmed
      (join_tags-filled u us h.1.0) (trim-join_tags (u ∷ us) h.1)
