-- ===== src/Format.antt =====
-- Text of the forms and lists: frontend-next/src/format.ts.
pub mod Tags
pub mod LocalTime
mod Tests
use tiny_crm.Prelude.{
  ℕ, ◌+◌, ◌*◌, ◌/◌, ◌%◌, ◌++◌, List, map, Text, codes, truthy, trim, split, filter, ltb, nat_text,
  if◌then◌else◌,
}

-- `splitTags`.
unfoldable pub split_tags : Text → List Text
split_tags text = filter truthy (map trim (split b',' text))

-- `toFixed(0)` of `a / b`, and `toFixed(1)`: nearest, a tie upwards.
unfoldable pub to_fixed0 : ℕ → ℕ → ℕ
to_fixed0 a b = (2 * a + b) / (2 * b)

unfoldable pub tenths : ℕ → ℕ → ℕ
tenths a b = (20 * a + b) / (2 * b)

-- `formatBytes`. Both quotients are exact in a double, so the rounding is that of the fraction.
unfoldable pub format_bytes : ℕ → Text
unfolding to_fixed0 tenths
format_bytes bytes =
    if ltb bytes 1024
    then nat_text bytes ++ codes " B"
    else if ltb bytes (1024 * 1024)
    then nat_text (to_fixed0 bytes 1024) ++ codes " KB"
    else (nat_text (tenths bytes (1024 * 1024) / 10)
        ++ (codes "." ++ (nat_text (tenths bytes (1024 * 1024) % 10) ++ codes " MB")))
