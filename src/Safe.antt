-- ===== src/Safe.antt =====
-- What comes from a user and is handed to the browser or the disk: `safeUrl` of
-- frontend-next/src/watches.ts, `filenameFor` and `extensionFor` of frontend-next/src/documents.ts.
pub mod Url
pub mod Filename
mod Tests
use tiny_crm.Prelude.{
  ℕ, zero, suc, ◌+◌, Bool, true, false, ◌&&◌, ◌||◌, Option, none, some, List, [], ◌∷◌, ◌++◌, Text,
  codes, text_eq, text_or, trim, starts_with, ltb, leb, ◌==◌, if◌then◌else◌,
}

-- The `i` flag on a pattern of ASCII letters.
abbrev pub lower : ℕ → ℕ
lower c = if leb b'A' c && leb c b'Z' then c + 32 else c

abbrev pub lower_text : Text → Text
lower_text [] = []
lower_text (c ∷ s) = lower c ∷ lower_text s

abbrev pub is_letter : ℕ → Bool
is_letter c = leb b'a' (lower c) && leb (lower c) b'z'

-- `/^https?:\/\//i.test(url)`.
unfoldable pub is_http : Text → Bool
is_http url =
    starts_with (lower_text url) (codes "http://")
    || starts_with (lower_text url) (codes "https://")

-- What follows `[a-z]+:` at the head of a text, when one stands there; `seen` is whether a letter does.
unfoldable pub after_scheme : Bool → Text → Option Text
after_scheme seen [] = none
after_scheme seen (c ∷ s) =
    let later = after_scheme true s in
    if is_letter c then later else if seen && (c == b':') then some s else none

abbrev pub or_same : Text → Option Text → Text
or_same s none = s
or_same s (some t) = t

-- `url.replace(/^[a-z]+:/i, '')`.
unfoldable pub without_scheme : Text → Text
unfolding after_scheme
without_scheme url = or_same url (after_scheme false url)

-- `safeUrl`.
unfoldable pub safe_url : Text → Text
unfolding is_http without_scheme
safe_url url = if is_http url then url else codes "https://" ++ without_scheme url

-- `[\\/:*?"<>|]`.
unfoldable pub is_forbidden : ℕ → Bool
is_forbidden c =
    (c == 92)
    || (c == 47)
    || (c == 58)
    || (c == 42)
    || (c == 63)
    || (c == 34)
    || (c == 60)
    || (c == 62)
    || (c == 124)

-- `replace(/[…]+/g, '-')`; `after` is whether the last character was one of them.
unfoldable pub dashes : Bool → Text → Text
unfolding is_forbidden
dashes after [] = []
dashes after (c ∷ s) =
    let in_run = dashes true s in
    let outside = dashes false s in
    if is_forbidden c then (if after then in_run else b'-' ∷ in_run) else c ∷ outside

-- `extensionFor`.
unfoldable pub extension_for : Text → Text
extension_for format =
    if text_eq format (codes "pdf")
    then codes "pdf"
    else if text_eq format (codes "markdown")
    then codes "md"
    else if text_eq format (codes "txt")
    then codes "txt"
    else codes "bin"

-- `filenameFor`, of a document's title and format.
unfoldable pub filename_for : Text → Text → Text
unfolding dashes extension_for
filename_for title format =
    text_or (trim (dashes false title)) (codes "document") ++ (codes "." ++ extension_for format)
