-- ===== src/Sharing/Once.antt =====
-- A share is filed once (frontend-next/src/routes/_authed/capture.tsx).
use tiny_crm.Prelude.{
  ℕ, ◌+◌, ◌≤◌, ◌≡◌, refl, Bool, true, false, ◌&&◌, ◌||◌, not, Option, List, [], ◌∷◌, Text, truthy,
  ltb, is_some, arith, if◌then◌else◌,
}
use tiny_crm.Sharing.{
  SharedCapture, Save, idle, pending, failed, stored, Event, rendered, answered, answer_lost,
  refused, navigated, try_again, reloaded, cut_off, reload, store_late, store, lose, refuse,
  replace_address, retry, step, run, arrived,
}

-- Whether a capture may still come: of a request under way, of one that may be tried again, or of the
-- first rendering.
abbrev pub coming : Save → Bool → ℕ
coming idle settled = if settled then 0 else 1
coming pending settled = 1
coming failed settled = 1
coming (stored id) settled = 0

abbrev pub is_busy : Save → Bool
is_busy idle = false
is_busy pending = true
is_busy failed = true
is_busy (stored id) = true

pub record IsOnce (w : SharedCapture) : Type 0 where
  pub once : w.captures + coming w.save (w.started || is_some w.saved) ≤ 1 + w.reloads + w.losses
  pub begun : (is_busy w.save && not w.started) ≡ false
  pub of_share : ((ltb 0 w.captures || is_busy w.save) && not (truthy w.raw)) ≡ false

by_test :
    (b : Bool) (v w : SharedCapture)
    → (b ≡ true → IsOnce v)
    → (b ≡ false → IsOnce w)
    → IsOnce (if b then v else w)
by_test true v w h g = h refl
by_test false v w h g = g refl

module _ (w : SharedCapture) where
  store-IsOnce :
      (id : Text) (s : Save)
      → IsOnce (record w { save = s })
      → IsOnce (store id s (record w { save = s }))
  store-IsOnce id pending h = record {
    once = omega (arith, h.once);
    begun = ground (arith, h.begun);
    of_share = ground (arith, h.of_share);
  }
  store-IsOnce id idle h = h
  store-IsOnce id failed h = h
  store-IsOnce id (stored other) h = h

  lose-IsOnce :
      (s : Save) → IsOnce (record w { save = s }) → IsOnce (lose s (record w { save = s }))
  lose-IsOnce pending h = record {
    once = omega (arith, h.once);
    begun = h.begun;
    of_share = ground (arith, h.of_share);
  }
  lose-IsOnce idle h = h
  lose-IsOnce failed h = h
  lose-IsOnce (stored other) h = h

  refuse-IsOnce :
      (s : Save) → IsOnce (record w { save = s }) → IsOnce (refuse s (record w { save = s }))
  refuse-IsOnce pending h = record { once = h.once; begun = h.begun; of_share = h.of_share }
  refuse-IsOnce idle h = h
  refuse-IsOnce failed h = h
  refuse-IsOnce (stored other) h = h

  replace_address-IsOnce :
      (s : Save)
      → IsOnce (record w { save = s })
      → IsOnce (replace_address s (record w { save = s }))
  replace_address-IsOnce (stored id) h = record {
    once = h.once;
    begun = h.begun;
    of_share = h.of_share;
  }
  replace_address-IsOnce idle h = h
  replace_address-IsOnce pending h = h
  replace_address-IsOnce failed h = h

  retry-IsOnce :
      (s : Save) → IsOnce (record w { save = s }) → IsOnce (retry s (record w { save = s }))
  retry-IsOnce failed h = record { once = h.once; begun = h.begun; of_share = h.of_share }
  retry-IsOnce idle h = h
  retry-IsOnce pending h = h
  retry-IsOnce (stored other) h = h

  from_idle :
      (s : Save) (started : Bool)
      → (started || (is_some w.saved || not (truthy w.raw))) ≡ false
      → w.captures + coming s (started || is_some w.saved) ≤ 1 + w.reloads + w.losses
      → (is_busy s && not started) ≡ false
      → w.captures + 1 ≤ 1 + w.reloads + w.losses
  from_idle idle started e h g = ground (arith, e, h)
  from_idle pending started e h g = h
  from_idle failed started e h g = h
  from_idle (stored id) started e h g = ground (arith, e, g)

  reload_once :
      (s : Save)
      → IsOnce (record w { save = s })
      → w.captures + (if is_some w.saved then 0 else 1)
        ≤ 1 + (if is_some w.saved then w.reloads else w.reloads + 1) + w.losses
  reload_once s h = ground (arith, h.once, is_some w.saved)

  start-IsOnce :
      (s : Save)
      → (w.started || (is_some w.saved || not (truthy w.raw))) ≡ false
      → IsOnce (record w { save = s })
      → IsOnce (record w { started = true; save = pending })
  start-IsOnce s e h = record {
    once = from_idle s w.started e h.once h.begun;
    begun = refl;
    of_share = ground (arith, e);
  }

  reload-IsOnce :
      (s : Save) → IsOnce (record w { save = s }) → IsOnce (reload (record w { save = s }))
  reload-IsOnce s h = record {
    once = reload_once s h;
    begun = refl;
    of_share = ground (arith, h.of_share);
  }

  late_once :
      IsOnce (record w { save = pending })
      → w.captures + 1 + (if is_some w.saved then 0 else 1)
        ≤ 1 + (if is_some w.saved then w.reloads else w.reloads + 1) + w.losses
  late_once h = ground (arith, h.once, is_some w.saved)

  cut_off-IsOnce :
      (s : Save)
      → IsOnce (record w { save = s })
      → IsOnce (reload (store_late s (record w { save = s })))
  cut_off-IsOnce pending h = record {
    once = late_once h;
    begun = refl;
    of_share = ground (arith, h.of_share);
  }
  cut_off-IsOnce idle h = reload-IsOnce idle h
  cut_off-IsOnce failed h = reload-IsOnce failed h
  cut_off-IsOnce (stored other) h = reload-IsOnce (stored other) h

step-IsOnce : (e : Event) (w : SharedCapture) → IsOnce w → IsOnce (step e w)
unfolding step
step-IsOnce rendered w h =
    by_test (w.started || (is_some w.saved || not (truthy w.raw))) w _ (λ e. h)
      (λ e. start-IsOnce w w.save e h)
step-IsOnce (answered id) w h = store-IsOnce w id w.save h
step-IsOnce answer_lost w h = lose-IsOnce w w.save h
step-IsOnce refused w h = refuse-IsOnce w w.save h
step-IsOnce navigated w h = replace_address-IsOnce w w.save h
step-IsOnce try_again w h = retry-IsOnce w w.save h
step-IsOnce reloaded w h = reload-IsOnce w w.save h
step-IsOnce cut_off w h = cut_off-IsOnce w w.save h

run_keeps-IsOnce : (es : List Event) (w : SharedCapture) → IsOnce w → IsOnce (run es w)
unfolding run
run_keeps-IsOnce [] w h = h
run_keeps-IsOnce (e ∷ es) w h = run_keeps-IsOnce es (step e w) (step-IsOnce e w h)

-- Whatever is rendered, answered, lost, refused and tried again: what is shared is filed at most once, and
-- once more for each time that the page is loaded again before the address says that it is saved, and
-- for each answer that is lost after the server has stored the capture; and a share that is
-- empty is never filed.
pub share_once :
    (parts : List (Option Text)) (es : List Event)
    → ((run es (arrived parts)).captures
        ≤ 1 + (run es (arrived parts)).reloads + (run es (arrived parts)).losses)
      × ((ltb 0 (run es (arrived parts)).captures && not (truthy (run es (arrived parts)).raw))
          ≡ false)
unfolding arrived
share_once parts es =
    let h : IsOnce (run es (arrived parts)) =
      run_keeps-IsOnce es (arrived parts)
        (record { once = omega arith; begun = refl; of_share = refl }) in
    (omega (arith, h.once), ground (arith, h.of_share))
