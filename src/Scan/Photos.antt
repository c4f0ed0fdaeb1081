-- ===== src/Scan/Photos.antt =====
-- The object URLs of the photos (usePhoto of frontend-next/src/routes/_authed/contacts/scan.tsx).
use tiny_crm.Prelude.{
  ℕ, ◌≤◌, ◌≡◌, refl, Bool, false, ◌&&◌, ◌||◌, not, Option, none, some, List, [], ◌∷◌, any, ◌==◌,
  arith,
}
use tiny_crm.Scan.{
  Urls, revoke, Photo, release, taken, created, ScanCard, Event, set_front, set_back, was_read,
  rescan, step, run, leave,
}

abbrev pub holds : List ℕ → ℕ → Bool
holds held u = any (λ v. v == u) held

abbrev pub is_url : {F : Type 0} → Option (Photo F) → ℕ → Bool
is_url none u = false
is_url (some p) u = p.url == u

holds-revoke :
    (url : ℕ) (held : List ℕ) (u : ℕ) → holds (revoke url held) u ≡ (holds held u && not (url == u))
holds-revoke url [] u = refl
holds-revoke url (v ∷ held) u = ground (arith, holds-revoke url held u)

released :
    {F : Type 0} (p q : Option (Photo F)) (urls : Urls) (u : ℕ)
    → holds urls.held u ≡ (is_url p u || is_url q u)
    → holds (release q (release p urls)).held u ≡ false
released none none urls u h = h
released none (some q) urls u h = ground (arith, holds-revoke q.url urls.held u, h)
released (some p) none urls u h = ground (arith, holds-revoke p.url urls.held u, h)
released (some p) (some q) urls u h =
    ground (arith, holds-revoke p.url urls.held u, holds-revoke q.url (revoke p.url urls.held) u, h)

module _ {F S : Type 0} where
  -- The URLs that are held are those of the two photos, each of its own, and the next one is new.
  pub record IsHeld (c : ScanCard F S) : Type 0 where
    pub held : (u : ℕ) → holds c.urls.held u ≡ (is_url c.front u || is_url c.back u)
    pub apart : (u : ℕ) → (is_url c.front u && is_url c.back u) ≡ false
    pub new : (u : ℕ) → c.urls.next ≤ u → (is_url c.front u || is_url c.back u) ≡ false

  front-IsHeld :
      (f : Option F) (p q : Option (Photo F)) (s : Option S) (urls : Urls)
      → IsHeld (record { front = p; back = q; scan = s; urls = urls })
      → IsHeld
          (record { front = taken f urls; back = q; scan = s; urls = created f (release p urls) })
  front-IsHeld none none q s urls h = record {
    held = λ u. ground (arith, h.held u);
    apart = λ u. refl;
    new = λ u l. ground (arith, h.new u l);
  }
  front-IsHeld none (some p) q s urls h = record {
    held = λ u. ground (arith, h.held u, h.apart u, holds-revoke p.url urls.held u);
    apart = λ u. refl;
    new = λ u l. ground (arith, h.new u l);
  }
  front-IsHeld (some f) none q s urls h = record {
    held = λ u. ground (arith, h.held u);
    apart = λ u. ground (arith, h.new u);
    new = λ u l. ground (arith, h.new u);
  }
  front-IsHeld (some f) (some p) q s urls h = record {
    held = λ u. ground (arith, h.held u, h.apart u, holds-revoke p.url urls.held u);
    apart = λ u. ground (arith, h.new u);
    new = λ u l. ground (arith, h.new u);
  }

  sides_swapped :
      (p q : Option (Photo F)) (s : Option S) (urls : Urls)
      → IsHeld (record { front = p; back = q; scan = s; urls = urls })
      → IsHeld (record { front = q; back = p; scan = s; urls = urls })
  sides_swapped p q s urls h = record {
    held = λ u. ground (arith, h.held u);
    apart = λ u. ground (arith, h.apart u);
    new = λ u l. ground (arith, h.new u l);
  }

  step-IsHeld : (e : Event F S) (c : ScanCard F S) → IsHeld c → IsHeld (step e c)
  unfolding step
  step-IsHeld (set_front f) c h = front-IsHeld f c.front c.back c.scan c.urls h
  step-IsHeld (set_back f) c h =
      sides_swapped (taken f c.urls) c.front c.scan (created f (release c.back c.urls))
        (front-IsHeld f c.back c.front c.scan c.urls (sides_swapped c.front c.back c.scan c.urls h))
  step-IsHeld (was_read s) c h = record { held = h.held; apart = h.apart; new = h.new }
  step-IsHeld rescan c h = record { held = h.held; apart = h.apart; new = h.new }

  run_keeps-IsHeld : (es : List (Event F S)) (c : ScanCard F S) → IsHeld c → IsHeld (run es c)
  unfolding run
  run_keeps-IsHeld [] c h = h
  run_keeps-IsHeld (e ∷ es) c h = run_keeps-IsHeld es (step e c) (step-IsHeld e c h)

  -- The page as it opens, in a browser that holds no URL for it.
  abbrev pub opened : ℕ → ScanCard F S
  opened next = record {
    front = none;
    back = none;
    scan = none;
    urls = record { held = []; next = next };
  }

  -- Whatever photos are chosen, replaced and removed, and however often the card is read: the URLs that are
  -- held are exactly those of the photos that are chosen, never one for both, and once the page is left
  -- none is held.
  pub photo_urls :
      (next : ℕ) (es : List (Event F S))
      → IsHeld (run es (opened next))
        × ((u : ℕ) → holds (leave (run es (opened next))).held u ≡ false)
  unfolding leave
  photo_urls next es =
      let kept =
        run_keeps-IsHeld es (opened next)
          (record { held = λ u. refl; apart = λ u. refl; new = λ u l. refl }) in
      let c = run es (opened next) in (kept, λ u. released c.front c.back c.urls u (kept.held u))
