-- ===== src/Client/Flights.antt =====
-- One refresh at a time: frontend-next/src/api/client.ts, `refresh` in `authMiddleware`.
use mathlib.Core.Option.{some-injective}
use tiny_crm.Prelude.{
  ℕ, zero, suc, ◌≡◌, refl, sym, ap, subst, inl, inr, Bool, true, false, not, ◌||◌, Option, none,
  some, List, [], ◌∷◌, map, Text, All, All-append, filter, find, ◌==◌, ==_iff, Bool-cases,
  Option-cases, given,
}
use tiny_crm.Token.{Storage, get_token, get_refresh_token}
use tiny_crm.Client.{
  Flight, Phase, renewing, renewed, sent, refused, answered, retried, finished, failed, Request,
  Tab, Reply, launch, refresh, refresh_from, promise, promise_from, wake, wake_phase, land, settle,
  attach, put_at, put, append, on_request, on_response, receive_in, resume_in, fail_in, give_up,
  at_found, get_at, Event, request, reply, response, go_on, network_error, other_tab, step, run,
  opened, needs_renewal, renewed_meanwhile, renew_result, fresh,
}

-- `inFlight` is the only refresh under way.
abbrev pub OneFlight : Option ℕ → List Flight → Type 0
OneFlight none fs = fs ≡ []
OneFlight (some n) fs = (f : Flight) × (fs ≡ f ∷ []) × (f.number ≡ n)

-- Who waits, waits for that one.
abbrev pub Waits : Option ℕ → Phase → Type 0
Waits o (renewing n) = o ≡ some n
Waits o (refused n) = o ≡ some n
Waits o _ = Unit

abbrev pub AllWait : Option ℕ → List Request → Type 0
AllWait o rs = All (λ (r : Request). Waits o r.phase) rs

pub record IsLive (t : Tab) : Type 0 where
  pub single : OneFlight t.in_flight t.flights
  pub waiting : AllWait t.in_flight t.requests

Waits-some : (n : ℕ) (p : Phase) → Waits none p → Waits (some n) p
Waits-some n (renewing m) h = cc
Waits-some n (refused m) h = cc
Waits-some n renewed h = tt
Waits-some n (sent h') h = tt
Waits-some n (answered b) h = tt
Waits-some n (retried h') h = tt
Waits-some n (finished k) h = tt
Waits-some n failed h = tt

AllWait-some : (n : ℕ) (rs : List Request) → AllWait none rs → AllWait (some n) rs
AllWait-some n [] h = tt
AllWait-some n (r ∷ rs) h = (Waits-some n r.phase h.0, AllWait-some n rs h.1)

-- Starting or joining a refresh keeps this, and whoever asked waits for it.
refresh_from-IsLive :
    (o : Option ℕ) (t : Tab)
    → t.in_flight ≡ o
    → IsLive t
    → IsLive (refresh_from o t) × ((refresh_from o t).in_flight ≡ some (promise_from o t))
unfolding launch
refresh_from-IsLive none t e v =
    let empty : t.flights ≡ [] = subst (λ o. OneFlight o t.flights) e v.single in
    (
      record {
        single = (
          record { number = t.next; token = given (get_refresh_token t.storage) },
          rw empty refl,
          refl,
        );
        waiting = AllWait-some t.next t.requests (subst (λ o. AllWait o t.requests) e v.waiting);
      },
      refl,
    )
refresh_from-IsLive (some n) t e v = (v, e)

refresh-IsLive :
    (t : Tab) → IsLive t → IsLive (refresh t) × ((refresh t).in_flight ≡ some (promise t))
unfolding refresh promise
refresh-IsLive t v = refresh_from-IsLive t.in_flight t refl v

Waits-wake : (n : ℕ) (b : Bool) (p : Phase) → Waits (some n) p → Waits none (wake_phase n b p)
unfolding wake_phase
Waits-wake n b (renewing m) h =
    let e : n ≡ m = some-injective _ _ h in rw ((==_iff m n).1 (sym e)) tt
Waits-wake n b (refused m) h =
    let e : n ≡ m = some-injective _ _ h in rw ((==_iff m n).1 (sym e)) tt
Waits-wake n b renewed h = tt
Waits-wake n b (sent h') h = tt
Waits-wake n b (answered c) h = tt
Waits-wake n b (retried h') h = tt
Waits-wake n b (finished k) h = tt
Waits-wake n b failed h = tt

AllWait-wake :
    (n : ℕ) (b : Bool) (rs : List Request) → AllWait (some n) rs → AllWait none (map (wake n b) rs)
AllWait-wake n b [] h = tt
AllWait-wake n b (r ∷ rs) h = (Waits-wake n b r.phase h.0, AllWait-wake n b rs h.1)

-- The promise that settles is the only one.
OneFlight-found :
    (o : Option ℕ) (fs : List Flight) (n : ℕ) {f : Flight}
    → OneFlight o fs
    → find (λ (g : Flight). g.number == n) fs ≡ some f
    → (o ≡ some f.number) × (filter (λ (g : Flight). not (g.number == f.number)) fs ≡ [])
OneFlight-found none fs n h e = cc (rw h at e)
OneFlight-found (some m) fs n {f} (g, only, num) e =
    let e' : find (λ (g : Flight). g.number == n) (g ∷ []) ≡ some f = rw only at e in
    let same : g ≡ f = found_one g n e' in
    (rw (← same) (ap some (sym num)), rw (only, same) (rw ((==_iff f.number f.number).1 refl)))
  where
    found_one :
        (g : Flight) (n : ℕ) {f : Flight}
        → find (λ (g : Flight). g.number == n) (g ∷ []) ≡ some f
        → g ≡ f
    found_one g n {f} e = elim (Bool-cases (g.number == n)) [
      | inl q ↦ some-injective _ _ (rw q at e)
      | inr q ↦ cc (rw q at e)
    ]

land-IsLive :
    (f : Flight) (r : Reply) (t : Tab)
    → t.in_flight ≡ some f.number
    → filter (λ (g : Flight). not (g.number == f.number)) t.flights ≡ []
    → IsLive t
    → IsLive (land f r t)
unfolding land
land-IsLive f r t e gone v = record {
  single = gone;
  waiting =
      AllWait-wake f.number (renew_result f.token r) t.requests
        (subst (λ o. AllWait o t.requests) e v.waiting);
}

settle-IsLive : (n : ℕ) (r : Reply) (t : Tab) → IsLive t → IsLive (settle n r t)
unfolding settle
settle-IsLive n r t v = elim (Option-cases (find (λ (g : Flight). g.number == n) t.flights)) [
  | inl e ↦ rw e v
  | inr (f, e) ↦
      let (o, gone) = OneFlight-found t.in_flight t.flights n v.single e in
      rw e (land-IsLive f r t o gone v)
]

AllWait-put_at :
    (o : Option ℕ) (i : ℕ) (r : Request) (rs : List Request)
    → Waits o r.phase
    → AllWait o rs
    → AllWait o (put_at i r rs)
AllWait-put_at o i r [] w h = tt
AllWait-put_at o zero r (q ∷ qs) w h = (w, h.1)
AllWait-put_at o (suc i) r (q ∷ qs) w h = (h.0, AllWait-put_at o i r qs w h.1)

put-IsLive :
    (i : ℕ) (r : Request) (t : Tab) → Waits t.in_flight r.phase → IsLive t → IsLive (put i r t)
put-IsLive i r t w v = record {
  single = v.single;
  waiting = AllWait-put_at t.in_flight i r t.requests w v.waiting;
}

append-IsLive : (r : Request) (t : Tab) → Waits t.in_flight r.phase → IsLive t → IsLive (append r t)
append-IsLive r t w v = record {
  single = v.single;
  waiting =
      All-append (λ (q : Request). Waits t.in_flight q.phase) t.requests (r ∷ []) v.waiting (w, tt);
}

give_up-IsLive : (i : ℕ) (r : Request) (t : Tab) → IsLive t → IsLive (give_up i r t)
unfolding give_up
give_up-IsLive i r t v = record {
  single = v.single;
  waiting = AllWait-put_at t.in_flight i _ t.requests tt v.waiting;
}

attach-Waits : (o : Option ℕ) (token : Option Text) (r : Request) → Waits o (attach token r).phase
unfolding attach
attach-Waits o none r = tt
attach-Waits o (some token) r = tt

on_request-IsLive : (expiring : Text → Bool) (t : Tab) → IsLive t → IsLive (on_request expiring t)
unfolding on_request
on_request-IsLive expiring t v =
    elim (Bool-cases (needs_renewal expiring (given (get_token t.storage)))) [
      | inl e ↦
          let (live, wait) = refresh-IsLive t v in rw e (append-IsLive _ (refresh t) wait live)
      | inr e ↦
          rw e (append-IsLive _ t (attach-Waits t.in_flight (given (get_token t.storage)) fresh) v)
    ]

on_response-IsLive :
    (i status : ℕ) (h : Option Text) (r : Request) (t : Tab)
    → IsLive t
    → IsLive (on_response i status h r t)
unfolding on_response
on_response-IsLive i status h r t v = elim (Bool-cases (not (status == 401) || not r.copy)) [
  | inl e ↦ rw e (put-IsLive i _ t tt v)
  | inr e ↦ rw e (elim (Bool-cases (renewed_meanwhile h (get_token t.storage))) [
    | inl k ↦ rw k (put-IsLive i _ t tt v)
    | inr k ↦ let (live, wait) = refresh-IsLive t v in rw k (put-IsLive i _ (refresh t) wait live)
  ])
]

receive_in-IsLive :
    (p : Phase) (i status : ℕ) (r : Request) (t : Tab)
    → IsLive t
    → IsLive (receive_in p i status r t)
receive_in-IsLive (sent h) i status r t v = on_response-IsLive i status h r t v
receive_in-IsLive (retried h) i status r t v = elim (Bool-cases (status == 401)) [
  | inl e ↦ rw e (give_up-IsLive i r t v)
  | inr e ↦ rw e (put-IsLive i _ t tt v)
]
receive_in-IsLive _ i status r t v = v

resume_in-IsLive :
    (p : Phase) (i : ℕ) (r : Request) (t : Tab) → IsLive t → IsLive (resume_in p i r t)
resume_in-IsLive renewed i r t v =
    put-IsLive i _ t (attach-Waits t.in_flight (given (get_token t.storage)) r) v
resume_in-IsLive (answered true) i r t v = put-IsLive i _ t tt v
resume_in-IsLive (answered false) i r t v = give_up-IsLive i r t v
resume_in-IsLive _ i r t v = v

fail_in-IsLive : (p : Phase) (i : ℕ) (r : Request) (t : Tab) → IsLive t → IsLive (fail_in p i r t)
fail_in-IsLive (sent h) i r t v = put-IsLive i _ t tt v
fail_in-IsLive (retried h) i r t v = put-IsLive i _ t tt v
fail_in-IsLive _ i r t v = v

at_found-IsLive :
    (o : Option Request) (f : Request → Tab → Tab) (t : Tab)
    → ((r : Request) → IsLive (f r t))
    → IsLive t
    → IsLive (at_found o f t)
at_found-IsLive none f t h v = v
at_found-IsLive (some r) f t h v = h r

step-IsLive : (e : Event) (t : Tab) → IsLive t → IsLive (step e t)
unfolding step
step-IsLive (request expiring) t v = on_request-IsLive expiring t v
step-IsLive (reply n r) t v = settle-IsLive n r t v
step-IsLive (response i status) t v =
    at_found-IsLive (get_at i t.requests) _ t (λ r. receive_in-IsLive r.phase i status r t v) v
step-IsLive (go_on i) t v =
    at_found-IsLive (get_at i t.requests) _ t (λ r. resume_in-IsLive r.phase i r t v) v
step-IsLive (network_error i) t v =
    at_found-IsLive (get_at i t.requests) _ t (λ r. fail_in-IsLive r.phase i r t v) v
step-IsLive (other_tab s) t v = record { single = v.single; waiting = v.waiting }

run-IsLive_from : (es : List Event) (t : Tab) → IsLive t → IsLive (run es t)
unfolding run
run-IsLive_from [] t v = v
run-IsLive_from (e ∷ es) t v = run-IsLive_from es (step e t) (step-IsLive e t v)

-- Whatever the order of events, at most one refresh is under way in a tab, `inFlight` names it, and
-- every request that waits for a refresh waits for that one: none waits for one that has settled.
pub run-IsLive : (es : List Event) (s : Storage) → IsLive (run es (opened s))
run-IsLive es s = run-IsLive_from es (opened s) (record { single = refl; waiting = tt })
