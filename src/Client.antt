-- ===== src/Client.antt =====
-- The API client's session: `renew` and `authMiddleware` of frontend-next/src/api/client.ts, as the
-- steps of one tab. Between two awaits JavaScript runs alone, so every step is a whole such stretch;
-- the list of events is the order in which they come. The server, the network, other tabs and the
-- clock choose the events.
pub mod Flights
pub mod Requests
pub mod Session
pub mod Calm
mod Tests
use tiny_crm.Prelude.{
  ℕ, zero, suc, ◌+◌, Bool, true, false, not, ◌&&◌, ◌||◌, Option, none, some, List, [], ◌∷◌, ◌++◌,
  map, Text, text_eq, given, filter, find, ◌==◌, if◌then◌else◌,
}
use tiny_crm.Token.{Tokens, Storage, get_token, get_refresh_token, set_tokens, clear_tokens}

-- A call of `renew` that has not settled: its promise, by a number, and the refresh token that it
-- posted. Without a refresh token it posts nothing and settles with false.
pub record Flight : Type 0 where
  pub number : ℕ
  pub token : Option Text

-- What a request has come to. `renewing n` awaits the promise `n` in `onRequest`, and `renewed` is
-- due to go on there; `sent h` is on the network with the token `h`; `refused n` awaits `n` in
-- `onResponse`, and `answered b` is due to go on with its result; `retried` is the copy, on the
-- network; `finished` hands a status on, and `failed` rejects.
pub data Phase : Type 0 where
  renewing : ℕ → Phase
  renewed : Phase
  sent : Option Text → Phase
  refused : ℕ → Phase
  answered : Bool → Phase
  retried : Option Text → Phase
  finished : ℕ → Phase
  failed : Phase

-- `copy` is whether `copies` has an entry for the request's id; `sends` counts what went out.
pub record Request : Type 0 where
  pub phase : Phase
  pub copy : Bool
  pub sends : ℕ

pub record Tab : Type 0 where
  pub storage : Storage
  pub in_flight : Option ℕ
  pub flights : List Flight
  pub next : ℕ
  pub requests : List Request

-- What the refresh endpoint answers: a pair, a refusal with a status, or nothing.
pub data Reply : Type 0 where
  granted : Tokens → Reply
  denied : ℕ → Reply
  lost : Reply

-- `inFlight ??= renew(refresher).finally(…)`, as far as the first await: the tab with the promise
-- to wait for.
unfoldable pub launch : Tab → Tab
launch t = record t {
  in_flight = some t.next;
  flights =
      t.flights ++ (record { number = t.next; token = given (get_refresh_token t.storage) }) ∷ [];
  next = t.next + 1;
}

abbrev pub refresh_from : Option ℕ → Tab → Tab
refresh_from none t = launch t
refresh_from (some n) t = t

unfoldable pub refresh : Tab → Tab
refresh t = refresh_from t.in_flight t

abbrev pub promise_from : Option ℕ → Tab → ℕ
promise_from none t = t.next
promise_from (some n) t = n

unfoldable pub promise : Tab → ℕ
promise t = promise_from t.in_flight t

-- A refusal: the tokens go on a 401, unless another token is stored by now.
abbrev pub denied_storage : ℕ → Text → Option Text → Storage → Storage
denied_storage status token none s = s
denied_storage status token (some current) s =
    if status == 401 && text_eq current token then clear_tokens s else s

-- `renew` after its await: what it does with the tokens, and its result.
unfoldable pub renewed_storage : Option Text → Reply → Storage → Storage
renewed_storage none r s = s
renewed_storage (some token) (granted pair) s = set_tokens pair s
renewed_storage (some token) (denied status) s = denied_storage status token (get_refresh_token s) s
renewed_storage (some token) lost s = s

unfoldable pub renew_result : Option Text → Reply → Bool
renew_result (some token) (granted pair) = true
renew_result (some token) (denied status) = false
renew_result (some token) lost = false
renew_result none r = false

-- Those who wait for the promise `n` are due to go on.
unfoldable pub wake_phase : ℕ → Bool → Phase → Phase
wake_phase n b (renewing m) = if m == n then renewed else renewing m
wake_phase n b (refused m) = if m == n then answered b else refused m
wake_phase n b p = p

abbrev pub wake : ℕ → Bool → Request → Request
wake n b r = record r { phase = wake_phase n b r.phase }

-- `renew` settles, `finally` resets `inFlight`, and the promise wakes those who wait for it.
unfoldable pub land : Flight → Reply → Tab → Tab
unfolding renewed_storage renew_result wake_phase
land f r t = record t {
  storage = renewed_storage f.token r t.storage;
  in_flight = none;
  flights = filter (λ g. not (g.number == f.number)) t.flights;
  requests = map (wake f.number (renew_result f.token r)) t.requests;
}

abbrev pub land_found : Option Flight → Reply → Tab → Tab
land_found none r t = t
land_found (some f) r t = land f r t

unfoldable pub settle : ℕ → Reply → Tab → Tab
unfolding land
settle n r t = land_found (find (λ f. f.number == n) t.flights) r t

-- A request after `headers.set` and `copies.set`, or as it came where there is no token.
unfoldable pub attach : Option Text → Request → Request
attach none r = record r { phase = sent none; sends = r.sends + 1 }
attach (some token) r = record { phase = sent (some token); copy = true; sends = r.sends + 1 }

abbrev pub fresh : Request
fresh = record { phase = renewed; copy = false; sends = 0 }

abbrev pub put_at : ℕ → Request → List Request → List Request
put_at i r [] = []
put_at zero r (q ∷ qs) = r ∷ qs
put_at (suc i) r (q ∷ qs) = q ∷ put_at i r qs

abbrev pub put : ℕ → Request → Tab → Tab
put i r t = record t { requests = put_at i r t.requests }

abbrev pub append : Request → Tab → Tab
append r t = record t { requests = t.requests ++ r ∷ [] }

-- `onRequest` up to its await, or to its end. `expiring` is `expiresSoon` at that moment.
abbrev pub needs_renewal : (Text → Bool) → Option Text → Bool
needs_renewal expiring none = false
needs_renewal expiring (some token) = expiring token

unfoldable pub on_request : (Text → Bool) → Tab → Tab
unfolding refresh launch promise attach
on_request expiring t =
    if needs_renewal expiring (given (get_token t.storage))
    then append (record fresh { phase = renewing (promise t) }) (refresh t)
    else append (attach (given (get_token t.storage)) fresh) t

-- The copy goes out with the token of that moment, null included.
abbrev pub retry : Option Text → Request → Request
retry token r = record r { phase = retried token; sends = r.sends + 1 }

-- The session is over: the tokens go, and the first response is handed on.
unfoldable pub give_up : ℕ → Request → Tab → Tab
give_up i r t =
    put i (record r { phase = finished 401 }) (record t { storage = clear_tokens t.storage })

-- `current !== null && request.headers.get('Authorization') !== `Bearer ${current}``.
abbrev pub renewed_meanwhile : Option Text → Option Text → Bool
renewed_meanwhile header none = false
renewed_meanwhile none (some current) = true
renewed_meanwhile (some h) (some current) = not (text_eq h current)

-- `onResponse` of a request that went out with the token `h`.
unfoldable pub on_response : ℕ → ℕ → Option Text → Request → Tab → Tab
unfolding refresh launch promise
on_response i status h r t =
    if not (status == 401) || not r.copy
    then put i (record r { phase = finished status; copy = false }) t
    else if renewed_meanwhile h (get_token t.storage)
    then put i (retry (get_token t.storage) (record r { copy = false })) t
    else put i (record r { phase = refused (promise t); copy = false }) (refresh t)

-- A status arrives for the request `i`.
abbrev pub receive_in : Phase → ℕ → ℕ → Request → Tab → Tab
receive_in (sent h) i status r t = on_response i status h r t
receive_in (retried h) i status r t =
    if status == 401 then give_up i r t else put i (record r { phase = finished status }) t
receive_in _ i status r t = t

unfoldable pub receive : ℕ → ℕ → Request → Tab → Tab
unfolding on_response give_up
receive i status r t = receive_in r.phase i status r t

-- The request `i` goes on after the await that it was woken from.
abbrev pub resume_in : Phase → ℕ → Request → Tab → Tab
resume_in renewed i r t = put i (attach (given (get_token t.storage)) r) t
resume_in (answered true) i r t = put i (retry (get_token t.storage) r) t
resume_in (answered false) i r t = give_up i r t
resume_in _ i r t = t

unfoldable pub resume : ℕ → Request → Tab → Tab
unfolding attach give_up
resume i r t = resume_in r.phase i r t

-- The network fails under it: `onError` drops the copy, and a failed retry rejects.
abbrev pub fail_in : Phase → ℕ → Request → Tab → Tab
fail_in (sent h) i r t = put i (record r { phase = failed; copy = false }) t
fail_in (retried h) i r t = put i (record r { phase = failed }) t
fail_in _ i r t = t

unfoldable pub fail : ℕ → Request → Tab → Tab
fail i r t = fail_in r.phase i r t

abbrev pub get_at : ℕ → List Request → Option Request
get_at i [] = none
get_at zero (r ∷ rs) = some r
get_at (suc i) (r ∷ rs) = get_at i rs

abbrev pub at_found : Option Request → (Request → Tab → Tab) → Tab → Tab
at_found none f t = t
at_found (some r) f t = f r t

abbrev pub at : ℕ → (Request → Tab → Tab) → Tab → Tab
at i f t = at_found (get_at i t.requests) f t

-- `other_tab` is a write to the storage from outside the middleware: another tab's, or the tab's own sign-in
-- or sign-out.
pub data Event : Type 0 where
  request : (Text → Bool) → Event
  reply : ℕ → Reply → Event
  response : ℕ → ℕ → Event
  go_on : ℕ → Event
  network_error : ℕ → Event
  other_tab : Storage → Event

unfoldable pub step : Event → Tab → Tab
unfolding on_request settle receive resume fail
step (request expiring) t = on_request expiring t
step (reply n r) t = settle n r t
step (response i status) t = at i (receive i status) t
step (go_on i) t = at i (resume i) t
step (network_error i) t = at i (fail i) t
step (other_tab s) t = record t { storage = s }

unfoldable pub run : List Event → Tab → Tab
run [] t = t
run (e ∷ es) t = run es (step e t)

-- A tab as `createApi` leaves it, over the tokens that the browser kept.
abbrev pub opened : Storage → Tab
opened s = record { storage = s; in_flight = none; flights = []; next = 0; requests = [] }
