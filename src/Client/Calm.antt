-- ===== src/Client/Calm.antt =====
-- A session without a 401: frontend-next/src/api/client.ts, `authMiddleware`.
use mathlib.Core.Option.{some-injective}
use tiny_crm.Prelude.{
  ℕ, zero, suc, ◌≡◌, refl, subst, inl, inr, Bool, true, false, Option, none, some, List, [], ◌∷◌,
  map, arith, Text, All, All-append, find, ◌==◌, Bool-cases, given,
}
use tiny_crm.Token.{Storage, get_token}
use tiny_crm.Client.{
  Flight, Phase, renewing, renewed, sent, refused, answered, retried, Request, Tab, Reply, launch,
  refresh, refresh_from, wake, wake_phase, land_found, settle, attach, put_at, on_request,
  on_response, receive_in, put, append, resume_in, fail_in, get_at, at_found, Event, request, reply,
  response, go_on, network_error, other_tab, step, run, opened, needs_renewal, renew_result, fresh,
}
use tiny_crm.Client.Session.{HasSession, is_calm, renewed_storage-HasSession}

-- Phases that no 401 led to.
abbrev pub is_untroubled : Phase → Bool
is_untroubled (refused n) = false
is_untroubled (answered b) = false
is_untroubled (retried h) = false
is_untroubled _ = true

abbrev pub Untroubled : List Request → Type 0
Untroubled rs = All (λ (r : Request). is_untroubled r.phase ≡ true) rs

wake_phase-untroubled :
    (n : ℕ) (b : Bool) (p : Phase)
    → is_untroubled p ≡ true
    → is_untroubled (wake_phase n b p) ≡ true
unfolding wake_phase
wake_phase-untroubled n b (renewing m) h = ground arith
wake_phase-untroubled n b (refused m) h = cc
wake_phase-untroubled n b _ h = h

wake-Untroubled :
    (n : ℕ) (b : Bool) (rs : List Request) → Untroubled rs → Untroubled (map (wake n b) rs)
wake-Untroubled n b [] h = tt
wake-Untroubled n b (r ∷ rs) h = (wake_phase-untroubled n b r.phase h.0, wake-Untroubled n b rs h.1)

put_at-Untroubled :
    (i : ℕ) (r : Request) (rs : List Request)
    → is_untroubled r.phase ≡ true
    → Untroubled rs
    → Untroubled (put_at i r rs)
put_at-Untroubled i r [] w h = tt
put_at-Untroubled zero r (q ∷ qs) w h = (w, h.1)
put_at-Untroubled (suc i) r (q ∷ qs) w h = (h.0, put_at-Untroubled i r qs w h.1)

get_at-Untroubled :
    (i : ℕ) (rs : List Request) {r : Request}
    → Untroubled rs
    → get_at i rs ≡ some r
    → is_untroubled r.phase ≡ true
get_at-Untroubled i [] h e = cc
get_at-Untroubled zero (q ∷ qs) h e =
    subst (λ (r : Request). is_untroubled r.phase ≡ true) (some-injective _ _ e) h.0
get_at-Untroubled (suc i) (q ∷ qs) h e = get_at-Untroubled i qs h.1 e

attach-untroubled :
    (token : Option Text) (r : Request) → is_untroubled (attach token r).phase ≡ true
unfolding attach
attach-untroubled none r = refl
attach-untroubled (some token) r = refl

pub record IsCalmTab (t : Tab) : Type 0 where
  pub session : HasSession t.storage
  pub untroubled : Untroubled t.requests

refresh-IsCalmTab : (t : Tab) → IsCalmTab t → IsCalmTab (refresh t)
unfolding refresh launch
refresh-IsCalmTab t v = go t.in_flight
  where
    go : (o : Option ℕ) → IsCalmTab (refresh_from o t)
    go none = record { session = v.session; untroubled = v.untroubled }
    go (some n) = v

append-IsCalmTab :
    (r : Request) (t : Tab) → is_untroubled r.phase ≡ true → IsCalmTab t → IsCalmTab (append r t)
append-IsCalmTab r t w v = record {
  session = v.session;
  untroubled =
      All-append (λ (r : Request). is_untroubled r.phase ≡ true) t.requests (r ∷ []) v.untroubled
        (w, tt);
}

put-IsCalmTab :
    (i : ℕ) (r : Request) (t : Tab)
    → is_untroubled r.phase ≡ true
    → IsCalmTab t
    → IsCalmTab (put i r t)
put-IsCalmTab i r t w v = record {
  session = v.session;
  untroubled = put_at-Untroubled i r t.requests w v.untroubled;
}

on_request-IsCalmTab :
    (expiring : Text → Bool) (t : Tab) → IsCalmTab t → IsCalmTab (on_request expiring t)
unfolding on_request
on_request-IsCalmTab expiring t v =
    elim (Bool-cases (needs_renewal expiring (given (get_token t.storage)))) [
      | inl e ↦ rw e (append-IsCalmTab _ (refresh t) refl (refresh-IsCalmTab t v))
      | inr e ↦
          rw e (append-IsCalmTab _ t (attach-untroubled (given (get_token t.storage)) fresh) v)
    ]

on_response-IsCalmTab :
    (i status : ℕ) (h : Option Text) (r : Request) (t : Tab)
    → (status == 401) ≡ false
    → IsCalmTab t
    → IsCalmTab (on_response i status h r t)
unfolding on_response
on_response-IsCalmTab i status h r t c v = rw c (put-IsCalmTab i _ t refl v)

receive_in-IsCalmTab :
    (p : Phase) (i status : ℕ) (r : Request) (t : Tab)
    → is_untroubled p ≡ true
    → (status == 401) ≡ false
    → IsCalmTab t
    → IsCalmTab (receive_in p i status r t)
receive_in-IsCalmTab (sent h) i status r t p c v = on_response-IsCalmTab i status h r t c v
receive_in-IsCalmTab (retried h) i status r t p c v = cc
receive_in-IsCalmTab _ i status r t p c v = v

resume_in-IsCalmTab :
    (p : Phase) (i : ℕ) (r : Request) (t : Tab)
    → is_untroubled p ≡ true
    → IsCalmTab t
    → IsCalmTab (resume_in p i r t)
resume_in-IsCalmTab renewed i r t p v =
    put-IsCalmTab i _ t (attach-untroubled (given (get_token t.storage)) r) v
resume_in-IsCalmTab (answered true) i r t p v = cc
resume_in-IsCalmTab (answered false) i r t p v = cc
resume_in-IsCalmTab _ i r t p v = v

fail_in-IsCalmTab :
    (p : Phase) (i : ℕ) (r : Request) (t : Tab) → IsCalmTab t → IsCalmTab (fail_in p i r t)
fail_in-IsCalmTab (sent h) i r t v = put-IsCalmTab i _ t refl v
fail_in-IsCalmTab (retried h) i r t v = put-IsCalmTab i _ t refl v
fail_in-IsCalmTab _ i r t v = v

settle-IsCalmTab :
    (n : ℕ) (r : Reply) (t : Tab)
    → is_calm (reply n r) ≡ true
    → IsCalmTab t
    → IsCalmTab (settle n r t)
unfolding settle
settle-IsCalmTab n r t c v = found (find (λ (f : Flight). f.number == n) t.flights)
  where
    found : (o : Option Flight) → IsCalmTab (land_found o r t)
    found none = v
    found (some f) = record {
      session = renewed_storage-HasSession f.token r t.storage n c v.session;
      untroubled = wake-Untroubled f.number (renew_result f.token r) t.requests v.untroubled;
    }

at_found-IsCalmTab :
    (o : Option Request) (f : Request → Tab → Tab) (t : Tab)
    → ((r : Request) → o ≡ some r → IsCalmTab (f r t))
    → IsCalmTab t
    → IsCalmTab (at_found o f t)
at_found-IsCalmTab none f t h a = a
at_found-IsCalmTab (some r) f t h a = h r refl

step-IsCalmTab : (e : Event) (t : Tab) → is_calm e ≡ true → IsCalmTab t → IsCalmTab (step e t)
unfolding step
step-IsCalmTab (request expiring) t c v = on_request-IsCalmTab expiring t v
step-IsCalmTab (reply n r) t c v = settle-IsCalmTab n r t c v
step-IsCalmTab (response i status) t c v =
    at_found-IsCalmTab (get_at i t.requests) _ t
      (λ r e.
        receive_in-IsCalmTab r.phase i status r t (get_at-Untroubled i t.requests v.untroubled e)
          (ground arith) v)
      v
step-IsCalmTab (go_on i) t c v =
    at_found-IsCalmTab (get_at i t.requests) _ t
      (λ r e. resume_in-IsCalmTab r.phase i r t (get_at-Untroubled i t.requests v.untroubled e) v) v
step-IsCalmTab (network_error i) t c v =
    at_found-IsCalmTab (get_at i t.requests) _ t (λ r e. fail_in-IsCalmTab r.phase i r t v) v
step-IsCalmTab (other_tab s) t c v = cc

run-IsCalmTab :
    (es : List Event) (t : Tab)
    → All (λ e. is_calm e ≡ true) es
    → IsCalmTab t
    → IsCalmTab (run es t)
unfolding run
run-IsCalmTab [] t c v = v
run-IsCalmTab (e ∷ es) t c v = run-IsCalmTab es (step e t) c.1 (step-IsCalmTab e t c.0 v)

-- While neither the API nor the refresh endpoint answers a 401, and the tokens are not written from outside
-- the middleware (by another tab, or by a sign-in or sign-out of this one), a tab that has a pair of
-- tokens keeps one, through errors of the network and of the server, and through refreshes that
-- fail.
pub run-HasSession :
    (es : List Event) (s : Storage)
    → HasSession s
    → All (λ e. is_calm e ≡ true) es
    → HasSession (run es (opened s)).storage
run-HasSession es s h c =
    (run-IsCalmTab es (opened s) c (record { session = h; untroubled = tt })).session
