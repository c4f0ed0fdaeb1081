-- ===== src/Editing.antt =====
-- An edit page: `useEditVersion`, `isStaleSave` and `formError` of
-- frontend-next/src/useEditVersion.ts, the page around them
-- (frontend-next/src/routes/_authed/organizations/$organizationId/edit.tsx, as the other edit pages),
-- and the server's `check_version` of backend/app/audit.py. `A` is what a record holds.
pub mod Forms
pub mod Saves
pub mod Stale
mod Tests
use tiny_crm.Prelude.{
  ℕ, zero, suc, ◌+◌, Bool, true, false, ◌&&◌, not, Option, none, some, List, [], ◌∷◌, ◌++◌, Text,
  codes, includes, ◌==◌, if◌then◌else◌,
}

-- What a request throws.
pub data Failure : Type 0 where
  api_error : (status : ℕ) → (message : Text) → Failure
  other_error : (message : Text) → Failure

-- `isStaleSave`.
unfoldable pub is_stale_save : Option Failure → Bool
is_stale_save none = false
is_stale_save (some (api_error status message)) =
    (status == 409) && includes message (codes "changed elsewhere")
is_stale_save (some (other_error message)) = false

-- `formError`.
unfoldable pub form_error : Option Failure → Option Failure
unfolding is_stale_save
form_error error = if is_stale_save error then none else error

pub record Versioned {ℓ} (A : Type ℓ) : Type ℓ where
  pub version : ℕ
  pub content : A

-- `check_version`: nothing, or what it raises.
unfoldable pub check_version : Option ℕ → ℕ → Text → Option Failure
check_version none current label = none
check_version (some expected) current label =
    if expected == current
    then none
    else some (
        api_error 409 (
          label
          ++ codes " was changed elsewhere since you opened it — reload to see the latest version"))

-- A form keeps the fields that it was mounted with, until its key changes.
pub record Form {ℓ} (A : Type ℓ) : Type ℓ where
  pub key : ℕ
  pub initial : Versioned A

-- A save on its way: the version it sends, its body, and the record its form was filled from.
pub record Save {ℓ} (A : Type ℓ) : Type ℓ where
  pub version : Option ℕ
  pub body : A
  pub base : Versioned A

-- A save that the server took: the record its form was filled from and the one it replaced.
pub record Accepted {ℓ} (A : Type ℓ) : Type ℓ where
  pub base : Versioned A
  pub replaced : Versioned A

-- `opened` and `form_key` are the hook's; `current` and `failed` the query's data and error.
pub record Page {ℓ} (A : Type ℓ) : Type ℓ where
  pub opened : Option ℕ
  pub form_key : ℕ
  pub current : Option (Versioned A)
  pub failed : Bool
  pub form : Option (Form A)
  pub saving : Option (Save A)
  pub error : Option Failure

pub record World {ℓ} (A : Type ℓ) : Type ℓ where
  pub server : Versioned A
  pub page : Page A
  pub accepted : List (Accepted A)

pub data Event {ℓ} (A : Type ℓ) : Type ℓ where
  -- The record was fetched, or could not be.
  fetched : Event A
  fetch_failed : Event A
  -- "Load latest version"; whether its fetch succeeds.
  reload : (succeeds : Bool) → Event A
  -- Another tab's save.
  other_save : (content : A) → Event A
  -- Save is pressed, with these fields.
  press : (body : A) → Event A
  -- The save reaches the server, and its answer the page.
  arrive : Event A

module _ {ℓ} {A : Type ℓ} where
  abbrev pub version_of : Option (Versioned A) → Option ℕ
  version_of none = none
  version_of (some v) = some v.version

  -- `opened ?? record.data?.version`.
  abbrev pub or_current : Option ℕ → Option (Versioned A) → Option ℕ
  or_current none v = version_of v
  or_current (some n) v = some n

  -- The `key` of a form: the same one goes on, another is a new form of the record as it is now.
  abbrev pub keep_form : ℕ → Option (Form A) → Versioned A → Form A
  keep_form key none v = record { key = key; initial = v }
  keep_form key (some f) v = if f.key == key then f else record { key = key; initial = v }

  -- Nothing is edited before the record is there, nor while its fetch has failed.
  abbrev pub form_of : ℕ → Option (Form A) → Bool → Option (Versioned A) → Option (Form A)
  form_of key f true v = none
  form_of key f false none = none
  form_of key f false (some v) = some (keep_form key f v)

  -- A render: `if (opened === undefined && record.data) setOpened(record.data.version)`, then the form.
  unfoldable pub render : Page A → Page A
  render p = record {
    opened = or_current p.opened p.current;
    form_key = p.form_key;
    current = p.current;
    failed = p.failed;
    form = form_of p.form_key p.form p.failed p.current;
    saving = p.saving;
    error = p.error;
  }

  -- The query has an answer.
  abbrev pub answered : Bool → Versioned A → Page A → Page A
  answered true v p = record {
    opened = p.opened;
    form_key = p.form_key;
    current = some v;
    failed = false;
    form = p.form;
    saving = p.saving;
    error = p.error;
  }
  answered false v p = record {
    opened = p.opened;
    form_key = p.form_key;
    current = p.current;
    failed = true;
    form = p.form;
    saving = p.saving;
    error = p.error;
  }

  -- `if (data) setOpened(data.version)`.
  abbrev pub reopen : Option ℕ → Option (Versioned A) → Option ℕ
  reopen opened none = opened
  reopen opened (some v) = some v.version

  -- `reload`, after its fetch, and the page's `mutation.reset()`.
  unfoldable pub reloaded : Page A → Page A
  reloaded p = record {
    opened = reopen p.opened p.current;
    form_key = p.form_key + 1;
    current = p.current;
    failed = p.failed;
    form = p.form;
    saving = p.saving;
    error = none;
  }

  -- `mutation.mutate(body)`: with `editing.version`, from a form that is there, one at a time.
  abbrev pub send : A → Option (Form A) → Option (Save A) → Page A → Page A
  send body none saving p = p
  send body (some f) (some s) p = p
  send body (some f) none p = record {
    opened = p.opened;
    form_key = p.form_key;
    current = p.current;
    failed = p.failed;
    form = p.form;
    saving =
        some (record { version = or_current p.opened p.current; body = body; base = f.initial });
    error = none;
  }

  -- The page is left after a save; opened again, it starts anew, with the saved record in the cache.
  abbrev pub left : Versioned A → Page A
  left v = record {
    opened = none;
    form_key = 0;
    current = some v;
    failed = false;
    form = none;
    saving = none;
    error = none;
  }

  abbrev pub refused : Failure → Page A → Page A
  refused e p = record {
    opened = p.opened;
    form_key = p.form_key;
    current = p.current;
    failed = p.failed;
    form = p.form;
    saving = none;
    error = some e;
  }

  abbrev pub next : Versioned A → A → Versioned A
  next v content = record { version = v.version + 1; content = content }

  -- The server takes a save that `check_version` lets through, as the record's next version.
  abbrev pub decide : Option Failure → Save A → World A → World A
  decide none s w = record {
    server = next w.server s.body;
    page = left (next w.server s.body);
    accepted = record { base = s.base; replaced = w.server } ∷ w.accepted;
  }
  decide (some e) s w = record { server = w.server; page = refused e w.page; accepted = w.accepted }

  abbrev pub deliver : Text → Option (Save A) → World A → World A
  deliver label none w = w
  deliver label (some s) w = decide (check_version s.version w.server.version label) s w

  abbrev pub with_page : Page A → World A → World A
  with_page p w = record { server = w.server; page = p; accepted = w.accepted }

  unfoldable pub handle : Text → Event A → World A → World A
  unfolding check_version reloaded
  handle label fetched w = with_page (answered true w.server w.page) w
  handle label fetch_failed w = with_page (answered false w.server w.page) w
  handle label (reload succeeds) w = with_page (reloaded (answered succeeds w.server w.page)) w
  handle label (other_save content) w = record {
    server = next w.server content;
    page = w.page;
    accepted = w.accepted;
  }
  handle label (press body) w = with_page (send body w.page.form w.page.saving w.page) w
  handle label arrive w = deliver label w.page.saving w

  -- React renders the page after each event.
  unfoldable pub step : Text → Event A → World A → World A
  unfolding handle render
  step label e w = with_page (render (handle label e w).page) (handle label e w)

  unfoldable pub run : Text → List (Event A) → World A → World A
  unfolding step
  run label [] w = w
  run label (e ∷ es) w = run label es (step label e w)

  -- The page when it is opened, before the record is there.
  abbrev pub opening : Versioned A → World A
  opening v = record {
    server = v;
    page = record {
      opened = none;
      form_key = 0;
      current = none;
      failed = false;
      form = none;
      saving = none;
      error = none;
    };
    accepted = [];
  }
