-- ===== src/Client/Tests.antt =====
-- Runs of frontend-next/src/api/client.ts, and its theorems at an input.
use tiny_crm.Prelude.{◌≡◌, refl, none, some, false, List, [], ◌∷◌, Text, codes, text_eq, Bool}
use tiny_crm.Token.{Tokens, Storage, get_refresh_token, set_tokens, clear_tokens, get_token}
use tiny_crm.Client.{
  finished, granted, denied, lost, Event, request, reply, response, go_on, network_error, step, run,
  opened, renewed_storage,
}
use tiny_crm.Client.Flights.{IsLive, run-IsLive}
use tiny_crm.Client.Requests.{AllTidy, run-AllTidy}
use tiny_crm.Client.Session.{HasSession}
use tiny_crm.Client.Calm.{run-HasSession}

abbrev signed_in : Storage
signed_in = record { access = some (codes "a1"); refresh = some (codes "r1"); blocked = false }

abbrev pair : Tokens
pair = record { access_token = codes "a2"; refresh_token = codes "r2" }

-- Whether a token is the first one, which expires.
abbrev first_expires : Text → Bool
first_expires token = text_eq token (codes "a1")

-- Two requests share one refresh; then one is refused, is refreshed in vain, and ends the session.
abbrev shared : List Event
shared =
    request first_expires
    ∷ request first_expires
    ∷ reply 0 (granted pair)
    ∷ go_on 0
    ∷ go_on 1
    ∷ response 0 200
    ∷ response 1 401
    ∷ reply 1 (denied 401)
    ∷ go_on 1
    ∷ []

shared_ends : run shared (opened signed_in) ≡ record {
  storage = record { access = none; refresh = none; blocked = false };
  in_flight = none;
  flights = [];
  next = 2;
  requests =
      record { phase = finished 200; copy = false; sends = 1 }
      ∷ record { phase = finished 401; copy = false; sends = 1 }
      ∷ [];
}
unfolding run step get_token get_refresh_token set_tokens clear_tokens
shared_ends = refl

run-IsLive_example : IsLive (run shared (opened signed_in))
run-IsLive_example = run-IsLive shared signed_in

run-AllTidy_example : AllTidy (run shared (opened signed_in)).requests
run-AllTidy_example = run-AllTidy shared signed_in

signed_out : get_refresh_token (renewed_storage (some (codes "r1")) (denied 401) signed_in) ≡ none
unfolding renewed_storage get_refresh_token clear_tokens
signed_out = refl

-- A refresh that fails with 503, and a request that the network loses.
abbrev offline : List Event
offline =
    request first_expires
    ∷ reply 0 (denied 503)
    ∷ go_on 0
    ∷ network_error 0
    ∷ request first_expires
    ∷ reply 1 lost
    ∷ []

run-HasSession_example : HasSession (run offline (opened signed_in)).storage
run-HasSession_example =
    run-HasSession offline signed_in
      (record {
        open_storage = refl;
        has_access = (codes "a1", refl);
        has_refresh = (codes "r1", refl);
      })
      (refl, (refl, (refl, (refl, (refl, (refl, tt))))))
