-- ===== src/Dialogs/Uploads.antt =====
-- One upload at a time, and a dialog that is fresh when it opens
-- (frontend-next/src/components/ImportDealsDialog.tsx, ImportVCardDialog.tsx).
use tiny_crm.Prelude.{
  ◌+◌, ◌≡◌, refl, Bool, true, false, ◌&&◌, ◌||◌, not, Option, none, List, [], ◌∷◌, ltb, is_some,
  arith, if◌then◌else◌,
}
use tiny_crm.Dialogs.{
  ImportDialog, Event, open_dialog, close, choose, import_file, uploaded, upload_failed, refreshed,
  refresh_failed, handle_close, handle_import, has_form, reset, step, run,
}

module _ {F S : Type 0} where
  pub record IsImporting (d : ImportDialog F S) : Type 0 where
    -- What is waited for, by whether the dialog says so.
    pub one : d.uploads + d.refreshes ≡ (if d.is_uploading then 1 else 0)
    -- A dialog that is closed has nothing left of the last time.
    pub fresh :
        (d.is_open
          || (not d.is_uploading
              && (not (is_some d.file) && (not (is_some d.summary) && not (is_some d.error)))))
        ≡ true
    -- A file is sent, and no upload is left to come once there is a summary.
    pub sent : (ltb 0 d.uploads && not (is_some d.file)) ≡ false
    pub told : (ltb 0 d.uploads && is_some d.summary) ≡ false

  by_test :
      (b : Bool) (d e : ImportDialog F S)
      → (b ≡ true → IsImporting d)
      → (b ≡ false → IsImporting e)
      → IsImporting (if b then d else e)
  by_test true d e h g = h refl
  by_test false d e h g = g refl

  close-IsImporting : (d : ImportDialog F S) → IsImporting d → IsImporting (handle_close d)
  unfolding handle_close
  close-IsImporting d h =
      by_test d.is_uploading d (record (reset d) { is_open = false }) (λ e. h)
        (λ e. record {
          one = ground (arith, h.one, e);
          fresh = refl;
          sent = ground (arith, h.one, e);
          told = ground (arith, h.one, e);
        })

  import-IsImporting :
      (d : ImportDialog F S) → has_form d ≡ true → IsImporting d → IsImporting (handle_import d)
  unfolding handle_import
  import-IsImporting d f h =
      by_test (not (is_some d.file) || d.is_uploading) d
        (record d { is_uploading = true; error = none; uploads = d.uploads + 1 }) (λ e. h)
        (λ e. record {
          one = ground (arith, h.one, e);
          fresh = ground (arith, f);
          sent = ground (arith, e);
          told = ground (arith, f);
        })

  choose-IsImporting :
      (f : Option F) (d : ImportDialog F S)
      → (has_form d && not d.is_uploading) ≡ true
      → IsImporting d
      → IsImporting (record d { file = f })
  choose-IsImporting f d e h = record {
    one = h.one;
    fresh = ground (arith, e);
    sent = ground (arith, h.one, e);
    told = h.told;
  }

  step-IsImporting : (e : Event F S) (d : ImportDialog F S) → IsImporting d → IsImporting (step e d)
  unfolding step
  step-IsImporting open_dialog d h = record {
    one = h.one;
    fresh = refl;
    sent = h.sent;
    told = h.told;
  }
  step-IsImporting close d h =
      by_test d.is_open (handle_close d) d (λ e. close-IsImporting d h) (λ e. h)
  step-IsImporting (choose f) d h =
      by_test (has_form d && not d.is_uploading) (record d { file = f }) d
        (λ e. choose-IsImporting f d e h) (λ e. h)
  step-IsImporting import_file d h =
      by_test (has_form d) (handle_import d) d (λ e. import-IsImporting d e h) (λ e. h)
  step-IsImporting (uploaded s) d h =
      by_test (ltb 0 d.uploads) _ d
        (λ e. record {
          one = ground (arith, h.one, e);
          fresh = ground (arith, h.one, h.fresh, e);
          sent = ground (arith, h.one, e);
          told = ground (arith, h.one, e);
        })
        (λ e. h)
  step-IsImporting (upload_failed m) d h =
      by_test (ltb 0 d.uploads) _ d
        (λ e. record {
          one = ground (arith, h.one, e);
          fresh = ground (arith, h.one, h.fresh, e);
          sent = ground (arith, h.one, e);
          told = ground (arith, h.one, e);
        })
        (λ e. h)
  step-IsImporting refreshed d h =
      by_test (ltb 0 d.refreshes) _ d
        (λ e. record {
          one = ground (arith, h.one, e);
          fresh = ground (arith, h.one, h.fresh, e);
          sent = h.sent;
          told = h.told;
        })
        (λ e. h)
  step-IsImporting (refresh_failed m) d h =
      by_test (ltb 0 d.refreshes) _ d
        (λ e. record {
          one = ground (arith, h.one, e);
          fresh = ground (arith, h.one, h.fresh, e);
          sent = h.sent;
          told = h.told;
        })
        (λ e. h)

  run_keeps-IsImporting :
      (es : List (Event F S)) (d : ImportDialog F S) → IsImporting d → IsImporting (run es d)
  unfolding run
  run_keeps-IsImporting [] d h = h
  run_keeps-IsImporting (e ∷ es) d h = run_keeps-IsImporting es (step e d) (step-IsImporting e d h)

  abbrev pub closed : ImportDialog F S
  closed = record {
    is_open = false;
    file = none;
    is_uploading = false;
    summary = none;
    error = none;
    uploads = 0;
    refreshes = 0;
  }

  -- Whatever is pressed and answered: one import is under way while the dialog says so and none otherwise; a
  -- file is being sent only while one is chosen and there is no summary yet; and a dialog that is closed
  -- is fresh, so nothing of an earlier import shows when it opens again.
  pub run-IsImporting : (es : List (Event F S)) → IsImporting (run es closed)
  run-IsImporting es =
      run_keeps-IsImporting es closed
        (record { one = refl; fresh = refl; sent = refl; told = refl })
