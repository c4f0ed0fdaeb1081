-- ===== src/Shell/Tests.antt =====
-- Runs of the retries of a query (frontend-next/src/main.tsx).
use tiny_crm.Prelude.{ℕ, ◌≡◌, refl, Option, some, [], ltb, if◌then◌else◌}
use tiny_crm.Editing.{Failure, api_error, other_error}
use tiny_crm.Shell.{last_try, retry}

-- The network fails twice, then the server answers 404.
abbrev lost_twice : ℕ → Option Failure
lost_twice n = if ltb n 2 then some (other_error []) else some (api_error 404 [])

third_try : last_try lost_twice 4 0 ≡ some 2
unfolding last_try retry
third_try = refl
