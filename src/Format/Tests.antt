-- ===== src/Format/Tests.antt =====
-- Runs of frontend-next/src/format.ts.
use tiny_crm.Prelude.{
  arith, arith, is_space, nat_text, split, trim, ◌≡◌, refl, List, [], ◌∷◌, Text, codes, All,
}
use tiny_crm.Format.{split_tags, format_bytes}
use tiny_crm.Format.Tags.{IsTag}

splits : split_tags (codes " a, ,b c ,") ≡ codes "a" ∷ codes "b c" ∷ []
unfolding split_tags split trim is_space
splits = refl

kilobytes : format_bytes 2048 ≡ codes "2 KB"
unfolding format_bytes nat_text
kilobytes = refl

megabytes : format_bytes 2621440 ≡ codes "2.5 MB"
unfolding format_bytes nat_text
megabytes = refl

abbrev two_tags : List Text
two_tags = codes "a" ∷ codes "b c" ∷ []

two_tags-IsTag : All IsTag two_tags
unfolding trim is_space
two_tags-IsTag = (
  record { filled = refl; trimmed = refl; comma_free = omega arith },
  (record { filled = refl; trimmed = refl; comma_free = omega arith }, tt),
)
