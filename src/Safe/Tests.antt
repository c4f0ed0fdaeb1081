-- ===== src/Safe/Tests.antt =====
-- Runs of `safeUrl` and `filenameFor` (frontend-next/src/watches.ts, frontend-next/src/documents.ts).
use tiny_crm.Prelude.{◌≡◌, refl, true, false, codes, starts_with, trim, is_space}
use tiny_crm.Safe.{is_http, safe_url, is_forbidden, filename_for}
use tiny_crm.Safe.Url.{safe_url-is_http}

safe_url-is_http_example : is_http (safe_url (codes "javascript:alert(1)")) ≡ true
safe_url-is_http_example = safe_url-is_http (codes "javascript:alert(1)")

not_http : is_http (codes "javascript:alert(1)") ≡ false
unfolding is_http starts_with
not_http = refl

slash_is_forbidden : is_forbidden b'/' ≡ true
unfolding is_forbidden
slash_is_forbidden = refl

filename_of_offers :
    filename_for (codes " offers: 2026/09 ") (codes "pdf") ≡ codes "offers- 2026-09.pdf"
unfolding filename_for is_forbidden trim is_space
filename_of_offers = refl
