-- ===== src/Scan.antt =====
-- Scanning a business card: frontend-next/src/routes/_authed/contacts/scan.tsx. The two photos and their
-- object URLs are here, the form that checks what was read in Review.
pub mod Photos
pub mod Review
mod Tests
use tiny_crm.Prelude.{
  ℕ, ◌+◌, Bool, true, false, ◌&&◌, ◌||◌, not, Option, none, some, List, [], ◌∷◌, any, filter, ◌==◌,
}

-- The object URLs that the browser holds, by their numbers, and the number of the next one.
pub record Urls : Type 0 where
  pub held : List ℕ
  pub next : ℕ

-- `URL.revokeObjectURL`.
abbrev pub revoke : ℕ → List ℕ → List ℕ
revoke url held = filter (λ u. not (u == url)) held

-- `Photo`.
pub record Photo (F : Type 0) : Type 0 where
  pub file : F
  pub url : ℕ

module _ {F : Type 0} where
  -- `if (photo) URL.revokeObjectURL(photo.url)`.
  abbrev pub release : Option (Photo F) → Urls → Urls
  release none urls = urls
  release (some p) urls = record urls { held = revoke p.url urls.held }

  -- `file ? { file, url: URL.createObjectURL(file) } : null`.
  abbrev pub taken : Option F → Urls → Option (Photo F)
  taken none urls = none
  taken (some f) urls = some (record { file = f; url = urls.next })

  abbrev pub created : Option F → Urls → Urls
  created none urls = urls
  created (some f) urls = record { held = urls.next ∷ urls.held; next = urls.next + 1 }

-- `ScanCard`: both photos, and what was read of them, if it was.
pub record ScanCard (F : Type 0) (S : Type 0) : Type 0 where
  pub front : Option (Photo F)
  pub back : Option (Photo F)
  pub scan : Option S
  pub urls : Urls

-- A photo chosen or removed, the answer of a read, "Scan again", and the page being left. The page is
-- rendered again between two of them.
pub data Event (F : Type 0) (S : Type 0) : Type 0 where
  set_front : Option F → Event F S
  set_back : Option F → Event F S
  was_read : S → Event F S
  rescan : Event F S

module _ {F S : Type 0} where
  -- `change` of `usePhoto`, for each side.
  unfoldable pub step : Event F S → ScanCard F S → ScanCard F S
  step (set_front f) c = record c {
    front = taken f c.urls;
    urls = created f (release c.front c.urls);
  }
  step (set_back f) c = record c { back = taken f c.urls; urls = created f (release c.back c.urls) }
  step (was_read s) c = record c { scan = some s }
  step rescan c = record c { scan = none }

  unfoldable pub run : List (Event F S) → ScanCard F S → ScanCard F S
  run [] c = c
  run (e ∷ es) c = run es (step e c)

  -- The clean-up of both photos when the page is left.
  unfoldable pub leave : ScanCard F S → Urls
  leave c = release c.back (release c.front c.urls)

  -- What `reading` is given: nothing without a front.
  abbrev pub sides_read : ScanCard F S → Option (F × Option F)
  sides_read c = front_of c.front c.back
    where
      file_of : Option (Photo F) → Option F
      file_of none = none
      file_of (some p) = some p.file

      front_of : Option (Photo F) → Option (Photo F) → Option (F × Option F)
      front_of none back = none
      front_of (some p) back = some (p.file, file_of back)
