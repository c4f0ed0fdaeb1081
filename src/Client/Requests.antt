-- ===== src/Client/Requests.antt =====
-- What becomes of a request: frontend-next/src/api/client.ts, the copies and the one retry.
use mathlib.Core.Option.{some-injective}
use tiny_crm.Prelude.{
  ℕ, zero, suc, ◌≤◌, ◌≡◌, refl, subst, inl, inr, Bool, true, false, not, ◌||◌, Option, none, some,
  List, [], ◌∷◌, map, arith, Text, All, All-append, find, ◌==◌, Bool-cases, given,
}
use tiny_crm.Token.{Storage, get_token}
use tiny_crm.Client.{
  Flight, Phase, renewing, renewed, sent, refused, answered, retried, finished, failed, Request,
  Tab, Reply, launch, refresh, refresh_from, wake, wake_phase, land_found, settle, attach, put_at,
  on_request, on_response, receive_in, resume_in, fail_in, give_up, get_at, at_found, Event,
  request, reply, response, go_on, network_error, other_tab, step, run, opened, needs_renewal,
  renewed_meanwhile, renew_result, fresh,
}

-- A copy is kept while the request is on the network with a token, and at no other time.
abbrev pub holds_copy : Phase → Bool
holds_copy (sent (some token)) = true
holds_copy (sent none) = false
holds_copy _ = false

-- How often a request can have gone out by then.
abbrev pub most_sends : Phase → ℕ
most_sends (renewing n) = 0
most_sends renewed = 0
most_sends (sent h) = 1
most_sends (refused n) = 1
most_sends (answered b) = 1
most_sends (retried h) = 2
most_sends (finished k) = 2
most_sends failed = 2

pub record IsTidy (r : Request) : Type 0 where
  pub copied : r.copy ≡ holds_copy r.phase
  pub bounded : r.sends ≤ most_sends r.phase

abbrev pub AllTidy : List Request → Type 0
AllTidy rs = All IsTidy rs

wake_phase-tidy :
    (n : ℕ) (b : Bool) (p : Phase)
    → (holds_copy (wake_phase n b p) ≡ holds_copy p)
      × (most_sends (wake_phase n b p) ≡ most_sends p)
unfolding wake_phase
wake_phase-tidy n b (renewing m) = ground arith
wake_phase-tidy n b (refused m) = ground arith
wake_phase-tidy n b (sent h) = (refl, refl)
wake_phase-tidy n b _ = (refl, refl)

wake-AllTidy : (n : ℕ) (b : Bool) (rs : List Request) → AllTidy rs → AllTidy (map (wake n b) rs)
wake-AllTidy n b [] h = tt
wake-AllTidy n b (r ∷ rs) h =
    let (c, m) = wake_phase-tidy n b r.phase in
    (record { copied = rw c h.0.copied; bounded = rw m h.0.bounded }, wake-AllTidy n b rs h.1)

put_at-AllTidy :
    (i : ℕ) (r : Request) (rs : List Request) → IsTidy r → AllTidy rs → AllTidy (put_at i r rs)
put_at-AllTidy i r [] w h = tt
put_at-AllTidy zero r (q ∷ qs) w h = (w, h.1)
put_at-AllTidy (suc i) r (q ∷ qs) w h = (h.0, put_at-AllTidy i r qs w h.1)

get_at-IsTidy :
    (i : ℕ) (rs : List Request) {r : Request} → AllTidy rs → get_at i rs ≡ some r → IsTidy r
get_at-IsTidy i [] h e = cc
get_at-IsTidy zero (q ∷ qs) h e = subst IsTidy (some-injective _ _ e) h.0
get_at-IsTidy (suc i) (q ∷ qs) h e = get_at-IsTidy i qs h.1 e

-- A request that has not gone out is sent once.
attach-IsTidy :
    (token : Option Text) (r : Request) → r.copy ≡ false → r.sends ≤ 0 → IsTidy (attach token r)
unfolding attach
attach-IsTidy none r c s = record { copied = c; bounded = omega arith }
attach-IsTidy (some token) r c s = record { copied = refl; bounded = omega arith }

refresh-requests : (t : Tab) → (refresh t).requests ≡ t.requests
unfolding refresh launch
refresh-requests t = go t.in_flight
  where
    go : (o : Option ℕ) → (refresh_from o t).requests ≡ t.requests
    go none = refl
    go (some n) = refl

on_request-AllTidy :
    (expiring : Text → Bool) (t : Tab)
    → AllTidy t.requests
    → AllTidy (on_request expiring t).requests
unfolding on_request
on_request-AllTidy expiring t h =
    elim (Bool-cases (needs_renewal expiring (given (get_token t.storage)))) [
      | inl e ↦ rw e (
          All-append IsTidy (refresh t).requests (_ ∷ []) (rw (refresh-requests t) h)
            (record { copied = refl; bounded = omega arith }, tt))
      | inr e ↦ rw e (
          All-append IsTidy t.requests (_ ∷ []) h
            (attach-IsTidy (given (get_token t.storage)) fresh refl (omega arith), tt))
    ]

on_response-AllTidy :
    (i status : ℕ) (h : Option Text) (r : Request) (t : Tab)
    → r.sends ≤ 1
    → AllTidy t.requests
    → AllTidy (on_response i status h r t).requests
unfolding on_response
on_response-AllTidy i status h r t s a = elim (Bool-cases (not (status == 401) || not r.copy)) [
  | inl e ↦ rw e (put_at-AllTidy i _ t.requests (record { copied = refl; bounded = omega arith }) a)
  | inr e ↦ rw e (elim (Bool-cases (renewed_meanwhile h (get_token t.storage))) [
    | inl k ↦
        rw k (put_at-AllTidy i _ t.requests (record { copied = refl; bounded = omega arith }) a)
    | inr k ↦ rw k (
        put_at-AllTidy i _ (refresh t).requests (record { copied = refl; bounded = omega arith })
          (rw (refresh-requests t) a))
  ])
]

give_up-AllTidy :
    (i : ℕ) (r : Request) (t : Tab)
    → r.copy ≡ false
    → r.sends ≤ 2
    → AllTidy t.requests
    → AllTidy (give_up i r t).requests
unfolding give_up
give_up-AllTidy i r t c s a = put_at-AllTidy i _ t.requests (record { copied = c; bounded = s }) a

-- What a request in a given phase is, by its tidiness.
module _ (r : Request) {p : Phase} (e : r.phase ≡ p) (v : IsTidy r) where
  tidy_copy : r.copy ≡ holds_copy p
  tidy_copy = rw (← e) v.copied

  tidy_sends : r.sends ≤ most_sends p
  tidy_sends = rw (← e) v.bounded

receive_in-AllTidy :
    (p : Phase) (i status : ℕ) (r : Request) (t : Tab)
    → r.phase ≡ p
    → IsTidy r
    → AllTidy t.requests
    → AllTidy (receive_in p i status r t).requests
receive_in-AllTidy (sent h) i status r t e v a =
    on_response-AllTidy i status h r t (tidy_sends r e v) a
receive_in-AllTidy (retried h) i status r t e v a = elim (Bool-cases (status == 401)) [
  | inl k ↦ rw k (give_up-AllTidy i r t (tidy_copy r e v) (tidy_sends r e v) a)
  | inr k ↦ rw k (
      put_at-AllTidy i _ t.requests
        (record { copied = tidy_copy r e v; bounded = tidy_sends r e v }) a)
]
receive_in-AllTidy _ i status r t e v a = a

resume_in-AllTidy :
    (p : Phase) (i : ℕ) (r : Request) (t : Tab)
    → r.phase ≡ p
    → IsTidy r
    → AllTidy t.requests
    → AllTidy (resume_in p i r t).requests
resume_in-AllTidy renewed i r t e v a =
    put_at-AllTidy i _ t.requests
      (attach-IsTidy (given (get_token t.storage)) r (tidy_copy r e v) (tidy_sends r e v)) a
resume_in-AllTidy (answered true) i r t e v a =
    put_at-AllTidy i _ t.requests
      (record { copied = tidy_copy r e v; bounded = (let s = tidy_sends r e v in omega arith) }) a
resume_in-AllTidy (answered false) i r t e v a =
    give_up-AllTidy i r t (tidy_copy r e v) (let s = tidy_sends r e v in omega arith) a
resume_in-AllTidy _ i r t e v a = a

fail_in-AllTidy :
    (p : Phase) (i : ℕ) (r : Request) (t : Tab)
    → r.phase ≡ p
    → IsTidy r
    → AllTidy t.requests
    → AllTidy (fail_in p i r t).requests
fail_in-AllTidy (sent h) i r t e v a =
    put_at-AllTidy i _ t.requests
      (record { copied = refl; bounded = (let s = tidy_sends r e v in omega arith) }) a
fail_in-AllTidy (retried h) i r t e v a =
    put_at-AllTidy i _ t.requests (record { copied = tidy_copy r e v; bounded = tidy_sends r e v })
      a
fail_in-AllTidy _ i r t e v a = a

settle-AllTidy :
    (n : ℕ) (r : Reply) (t : Tab) → AllTidy t.requests → AllTidy (settle n r t).requests
unfolding settle
settle-AllTidy n r t a = found (find (λ (f : Flight). f.number == n) t.flights)
  where
    found : (o : Option Flight) → AllTidy (land_found o r t).requests
    found none = a
    found (some f) = wake-AllTidy f.number (renew_result f.token r) t.requests a

at_found-AllTidy :
    (o : Option Request) (f : Request → Tab → Tab) (t : Tab)
    → ((r : Request) → o ≡ some r → AllTidy (f r t).requests)
    → AllTidy t.requests
    → AllTidy (at_found o f t).requests
at_found-AllTidy none f t h a = a
at_found-AllTidy (some r) f t h a = h r refl

step-AllTidy : (e : Event) (t : Tab) → AllTidy t.requests → AllTidy (step e t).requests
unfolding step
step-AllTidy (request expiring) t a = on_request-AllTidy expiring t a
step-AllTidy (reply n r) t a = settle-AllTidy n r t a
step-AllTidy (response i status) t a =
    at_found-AllTidy (get_at i t.requests) _ t
      (λ r e. receive_in-AllTidy r.phase i status r t refl (get_at-IsTidy i t.requests a e) a) a
step-AllTidy (go_on i) t a =
    at_found-AllTidy (get_at i t.requests) _ t
      (λ r e. resume_in-AllTidy r.phase i r t refl (get_at-IsTidy i t.requests a e) a) a
step-AllTidy (network_error i) t a =
    at_found-AllTidy (get_at i t.requests) _ t
      (λ r e. fail_in-AllTidy r.phase i r t refl (get_at-IsTidy i t.requests a e) a) a
step-AllTidy (other_tab s) t a = a

run-AllTidy_from : (es : List Event) (t : Tab) → AllTidy t.requests → AllTidy (run es t).requests
unfolding run
run-AllTidy_from [] t a = a
run-AllTidy_from (e ∷ es) t a = run-AllTidy_from es (step e t) (step-AllTidy e t a)

-- Whatever the order of events, no request goes out more than twice, and not more than once before
-- its first response; and `copies` holds a request exactly while it is on the network for the first
-- time with a token, so no copy is left behind by a response or an error.
pub run-AllTidy : (es : List Event) (s : Storage) → AllTidy (run es (opened s)).requests
run-AllTidy es s = run-AllTidy_from es (opened s) tt
