-- ===== src/Editing/Saves.antt =====
-- No save of an edit page overwrites what its form did not show
-- (frontend-next/src/useEditVersion.ts).
use mathlib.Core.Option.{none-ne-some}
use tiny_crm.Prelude.{
  ℕ, ◌+◌, ◌≡◌, refl, sym, inl, inr, true, false, ◌==◌, Option, none, some, List, [], ◌∷◌, Text,
  arith,
}
use tiny_crm.Editing.{
  Failure, Versioned, Form, Save, World, Event, fetched, fetch_failed, reload, other_save, press,
  arrive, check_version, reloaded, send, next, decide, deliver, with_page, handle, step, run,
  opening, reopen,
}
use tiny_crm.Editing.Forms.{
  Edited, Edits, Edits-Edited, Edits-next, Fresh, IsKept, IsReady, IsSafe, Known-next, OpenedAt,
  OpenedAt-or_current, OpenedBy, OpenedBy-server, Sends, Sends-next, render-IsSafe,
}

module _ {ℓ} {A : Type ℓ} where
  reopen-OpenedBy :
      (opened : Option ℕ) (c : Option (Versioned A))
      → OpenedBy opened c
      → OpenedBy (reopen opened c) c
  reopen-OpenedBy opened none h = h
  reopen-OpenedBy opened (some v) h = omega arith

  -- `reload` gives the form another key, so the next render replaces it.
  Edited-new_key :
      (s : Versioned A) (o opened : Option ℕ) (key : ℕ) (f : Option (Form A))
      → Edits s o key f
      → Edited s opened (key + 1) f
  Edited-new_key s o opened key none h = tt
  Edited-new_key s o opened key (some f) h = inl (let same : f.key ≡ key = h.0 in omega arith)

  ready : (w : World A) → IsSafe w → IsReady w
  ready w h =
      (h.0, h.1, Edits-Edited w.server w.page.opened w.page.form_key w.page.form h.2, h.3, h.4)

  -- What `check_version` lets through was filled from the record that it replaces.
  check_version-base :
      (expected : Option ℕ) (label : Text) (b s : Versioned A)
      → Fresh b s
      → OpenedAt expected b.version
      → check_version expected s.version label ≡ none
      → b ≡ s
  unfolding check_version
  check_version-base none label b s f o e = absurd o
  check_version-base (some n) label b s (inr f) o e = f
  check_version-base (some n) label b s (inl f) o e =
      let other : (n == s.version) ≡ false = ground arith in
      absurd (none-ne-some _ (sym (rw other at e)))

  decide-IsReady :
      (o : Option Failure) (v : Save A) (w : World A)
      → (o ≡ none → v.base ≡ w.server)
      → IsSafe w
      → IsReady (decide o v w)
  decide-IsReady none v w b h = (inr refl, tt, tt, tt, (b refl, h.4))
  decide-IsReady (some e) v w b h =
      (h.0, h.1, Edits-Edited w.server w.page.opened w.page.form_key w.page.form h.2, tt, h.4)

  deliver-IsReady :
      (label : Text) (saving : Option (Save A)) (w : World A)
      → Sends w.server saving
      → IsSafe w
      → IsReady (deliver label saving w)
  deliver-IsReady label none w h v = ready w v
  deliver-IsReady label (some s) w h v =
      decide-IsReady (check_version s.version w.server.version label) s w
        (check_version-base s.version label s.base w.server h.0 h.1) v

  send-IsReady :
      (body : A) (f : Option (Form A)) (saving : Option (Save A)) (w : World A)
      → Edits w.server w.page.opened w.page.form_key f
      → IsSafe w
      → IsReady (with_page (send body f saving w.page) w)
  send-IsReady body none saving w h v = ready w v
  send-IsReady body (some f) (some s) w h v = ready w v
  send-IsReady body (some f) none w h v =
      let (a, b, c, d, k) = ready w v in
      (a, b, c, (h.1, OpenedAt-or_current w.page.opened w.page.current f.initial.version h.2), k)

  handle-IsReady :
      (label : Text) (e : Event A) (w : World A) → IsSafe w → IsReady (handle label e w)
  unfolding handle reloaded
  handle-IsReady label fetched w h = (
    inr refl,
    OpenedBy-server w.server w.page.opened w.page.current h.0 h.1,
    Edits-Edited w.server w.page.opened w.page.form_key w.page.form h.2,
    h.3,
    h.4,
  )
  handle-IsReady label fetch_failed w h = ready w h
  handle-IsReady label (reload true) w h = (
    inr refl,
    omega arith,
    Edited-new_key w.server w.page.opened (some w.server.version) w.page.form_key w.page.form h.2,
    h.3,
    h.4,
  )
  handle-IsReady label (reload false) w h = (
    h.0,
    reopen-OpenedBy w.page.opened w.page.current h.1,
    Edited-new_key w.server w.page.opened (reopen w.page.opened w.page.current) w.page.form_key
        w.page.form h.2,
    h.3,
    h.4,
  )
  handle-IsReady label (other_save content) w h = (
    Known-next w.server content w.page.current h.0,
    h.1,
    Edits-Edited (next w.server content) w.page.opened w.page.form_key w.page.form
        (Edits-next w.server content w.page.opened w.page.form_key w.page.form h.2),
    Sends-next w.server content w.page.saving h.3,
    h.4,
  )
  handle-IsReady label (press body) w h = send-IsReady body w.page.form w.page.saving w h.2 h
  handle-IsReady label arrive w h = deliver-IsReady label w.page.saving w h.3 h

  run-IsSafe :
      (label : Text) (es : List (Event A)) (w : World A) → IsSafe w → IsSafe (run label es w)
  unfolding run step
  run-IsSafe label [] w h = h
  run-IsSafe label (e ∷ es) w h =
      run-IsSafe label es (step label e w)
        (render-IsSafe (handle label e w) (handle-IsReady label e w h))

  -- Whatever is fetched, reloaded, saved in another tab or saved here, and in whatever order, each save
  -- of the page that the server takes replaces exactly the record that its form was filled from.
  pub run-IsKept :
      (label : Text) (es : List (Event A)) (v : Versioned A)
      → IsKept (run label es (opening v)).accepted
  run-IsKept label es v = (run-IsSafe label es (opening v) (tt, tt, tt, tt, tt)).4
