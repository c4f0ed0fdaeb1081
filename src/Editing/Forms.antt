-- ===== src/Editing/Forms.antt =====
-- What the form of an edit page stands on, through the renders (frontend-next/src/useEditVersion.ts).
use tiny_crm.Prelude.{
  ℕ, ◌≤◌, ◌<◌, ◌≡◌, refl, ap, ◌⊎◌, inl, inr, Bool, true, false, ◌==◌, ==_iff, Option, none, some,
  List, All, arith,
}
use tiny_crm.Editing.{
  Versioned, Form, Save, Accepted, World, render, next, with_page, keep_form, form_of, or_current,
}

abbrev pub OpenedAt : Option ℕ → ℕ → Type 0
OpenedAt none n = ⊥
OpenedAt (some o) n = o ≤ n

module _ {ℓ} {A : Type ℓ} where
  -- Older than the server's record, or the same.
  abbrev pub Fresh : Versioned A → Versioned A → Type ℓ
  Fresh v s = (v.version < s.version) ⊎ (v ≡ s)

  abbrev Known : Versioned A → Option (Versioned A) → Type ℓ
  Known s none = Unit
  Known s (some v) = Fresh v s

  abbrev pub OpenedBy : Option ℕ → Option (Versioned A) → Type 0
  OpenedBy none v = Unit
  OpenedBy (some o) none = ⊥
  OpenedBy (some o) (some v) = o ≤ v.version

  abbrev IsForm : Versioned A → Option ℕ → ℕ → Form A → Type ℓ
  IsForm s opened key f = (f.key ≡ key) × Fresh f.initial s × OpenedAt opened f.initial.version

  abbrev pub Edits : Versioned A → Option ℕ → ℕ → Option (Form A) → Type ℓ
  Edits s opened key none = Unit
  Edits s opened key (some f) = IsForm s opened key f

  -- Before a render, a form may be one that the render replaces.
  abbrev pub Edited : Versioned A → Option ℕ → ℕ → Option (Form A) → Type ℓ
  Edited s opened key none = Unit
  Edited s opened key (some f) = (f.key < key) ⊎ IsForm s opened key f

  abbrev pub Sends : Versioned A → Option (Save A) → Type ℓ
  Sends s none = Unit
  Sends s (some v) = Fresh v.base s × OpenedAt v.version v.base.version

  abbrev pub IsKept : List (Accepted A) → Type ℓ
  IsKept l = All (λ (a : Accepted A). a.base ≡ a.replaced) l

  abbrev pub IsSafe : World A → Type ℓ
  IsSafe w =
      Known w.server w.page.current
      × OpenedBy w.page.opened w.page.current
      × Edits w.server w.page.opened w.page.form_key w.page.form
      × Sends w.server w.page.saving
      × IsKept w.accepted

  -- What a handler leaves for the render.
  abbrev pub IsReady : World A → Type ℓ
  IsReady w =
      Known w.server w.page.current
      × OpenedBy w.page.opened w.page.current
      × Edited w.server w.page.opened w.page.form_key w.page.form
      × Sends w.server w.page.saving
      × IsKept w.accepted

  Fresh-next : (v s : Versioned A) (content : A) → Fresh v s → Fresh v (next s content)
  Fresh-next v s content (inl h) = inl (omega arith)
  Fresh-next v s content (inr e) =
      inl (let same : v.version ≡ s.version = ap (λ (x : Versioned A). x.version) e in omega arith)

  pub Known-next :
      (s : Versioned A) (content : A) (v : Option (Versioned A))
      → Known s v
      → Known (next s content) v
  Known-next s content none h = tt
  Known-next s content (some v) h = Fresh-next v s content h

  pub Edits-next :
      (s : Versioned A) (content : A) (opened : Option ℕ) (key : ℕ) (f : Option (Form A))
      → Edits s opened key f
      → Edits (next s content) opened key f
  Edits-next s content opened key none h = tt
  Edits-next s content opened key (some f) h = (h.0, Fresh-next f.initial s content h.1, h.2)

  pub Sends-next :
      (s : Versioned A) (content : A) (v : Option (Save A)) → Sends s v → Sends (next s content) v
  Sends-next s content none h = tt
  Sends-next s content (some v) h = (Fresh-next v.base s content h.0, h.1)

  pub Edits-Edited :
      (s : Versioned A) (opened : Option ℕ) (key : ℕ) (f : Option (Form A))
      → Edits s opened key f
      → Edited s opened key f
  Edits-Edited s opened key none h = tt
  Edits-Edited s opened key (some f) h = inr h

  -- A version that was opened stands behind the server's.
  pub OpenedBy-server :
      (s : Versioned A) (opened : Option ℕ) (v : Option (Versioned A))
      → Known s v
      → OpenedBy opened v
      → OpenedBy opened (some s)
  OpenedBy-server s none v k h = tt
  OpenedBy-server s (some o) none k h = absurd h
  OpenedBy-server s (some o) (some v) (inl k) h = omega arith
  OpenedBy-server s (some o) (some v) (inr k) h =
      let same : v.version ≡ s.version = ap (λ (x : Versioned A). x.version) k in omega arith

  or_current-OpenedBy :
      (opened : Option ℕ) (v : Option (Versioned A))
      → OpenedBy opened v
      → OpenedBy (or_current opened v) v
  or_current-OpenedBy none none h = tt
  or_current-OpenedBy none (some v) h = omega arith
  or_current-OpenedBy (some o) v h = h

  or_current-OpenedAt :
      (opened : Option ℕ) (v : Versioned A)
      → OpenedBy opened (some v)
      → OpenedAt (or_current opened (some v)) v.version
  or_current-OpenedAt none v h = omega arith
  or_current-OpenedAt (some o) v h = h

  pub OpenedAt-or_current :
      (opened : Option ℕ) (c : Option (Versioned A)) (n : ℕ)
      → OpenedAt opened n
      → OpenedAt (or_current opened c) n
  OpenedAt-or_current none c n h = absurd h
  OpenedAt-or_current (some o) c n h = h

  keep_form-IsForm :
      (s : Versioned A) (opened : Option ℕ) (key : ℕ) (f : Option (Form A)) (v : Versioned A)
      → Fresh v s
      → OpenedBy opened (some v)
      → Edited s opened key f
      → IsForm s (or_current opened (some v)) key (keep_form key f v)
  keep_form-IsForm s opened key none v k o h = (refl, k, or_current-OpenedAt opened v o)
  keep_form-IsForm s opened key (some f) v k o (inl h) =
      let other : (f.key == key) ≡ false = ground arith in
      rw other (refl, k, or_current-OpenedAt opened v o)
  keep_form-IsForm s opened key (some f) v k o (inr h) =
      rw ((==_iff f.key key).1 h.0)
        (h.0, h.1, OpenedAt-or_current opened (some v) f.initial.version h.2)

  form_of-Edits :
      (s : Versioned A) (opened : Option ℕ) (key : ℕ) (f : Option (Form A)) (failed : Bool)
      (v : Option (Versioned A))
      → Known s v
      → OpenedBy opened v
      → Edited s opened key f
      → Edits s (or_current opened v) key (form_of key f failed v)
  form_of-Edits s opened key f true v k o h = tt
  form_of-Edits s opened key f false none k o h = tt
  form_of-Edits s opened key f false (some v) k o h = keep_form-IsForm s opened key f v k o h

  pub render-IsSafe : (w : World A) → IsReady w → IsSafe (with_page (render w.page) w)
  unfolding render
  render-IsSafe w h = (
    h.0,
    or_current-OpenedBy w.page.opened w.page.current h.1,
    form_of-Edits w.server w.page.opened w.page.form_key w.page.form w.page.failed w.page.current
        h.0 h.1 h.2,
    h.3,
    h.4,
  )
