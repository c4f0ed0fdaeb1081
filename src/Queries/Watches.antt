-- ===== src/Queries/Watches.antt =====
-- The sources: the queries and writes of frontend-next/src/watches.ts (cadence and due labels are in Due.antt).
use tiny_crm.Prelude.{codes, ℕ, Bool, true, false, Option, none, some, [], ◌∷◌, ◌++◌, Text}
use tiny_crm.Paging.{page_size, skip_of}
use tiny_crm.Queries.{
  or_first, or_first, or_first, word, flag, number, plain, object, Fields, Query, Write, Versioned,
  name, field, maybe_word, maybe_flag, filled, or_first, asks, writes, post, patch, delete,
}

-- `WatchScope`.
pub data WatchScope : Type 0 where
  due active all : WatchScope

abbrev pub scope_value : WatchScope → Text
scope_value due = codes "due"
scope_value active = codes "active"
scope_value all = codes "all"

-- `scopeQuery`.
abbrev pub scope_fields : WatchScope → Fields
scope_fields due = field "due" (flag true) ∷ field "active" (flag true) ∷ []
scope_fields active = field "active" (flag true) ∷ []
scope_fields all = []

pub record WatchFilters : Type 0 where
  pub q : Option Text
  pub scope : Option WatchScope
  pub kind : Option Text
  pub archived : Option Bool
  pub page : Option ℕ

-- `scope = 'due'`.
abbrev pub or_due : Option WatchScope → WatchScope
or_due none = due
or_due (some scope) = scope

-- `...(archived ? { archived: true } : scopeQuery(scope))`.
abbrev pub archive_or_scope : Option Bool → WatchScope → Fields
archive_or_scope (some true) scope = field "archived" (flag true) ∷ []
archive_or_scope (some false) scope = scope_fields scope
archive_or_scope none scope = scope_fields scope

abbrev pub watches_query : WatchFilters → Query
watches_query f = record {
  key =
      name "watches"
      ∷ name "list"
      ∷ object (
          field "q" (maybe_word f.q)
          ∷ field "scope" (word (scope_value (or_due f.scope)))
          ∷ field "kind" (maybe_word f.kind)
          ∷ field "archived" (maybe_flag f.archived)
          ∷ field "page" (number (or_first f.page))
          ∷ [])
      ∷ [];
  request = asks "/watches/" [] (
      field "search" (filled f.q)
        ∷ field "kind" (maybe_word f.kind)
        ∷ archive_or_scope f.archived (or_due f.scope)
      ++ (field "skip" (number (skip_of (or_first f.page)))
          ∷ field "limit" (number page_size)
          ∷ []));
  keeps_previous = true;
}

-- `dueCountQuery`.
abbrev pub due_watches_query : Query
due_watches_query = record {
  key = name "watches" ∷ name "due-count" ∷ [];
  request =
      asks "/watches/" []
        (field "due" (flag true) ∷ field "active" (flag true) ∷ field "limit" (number 1) ∷ []);
  keeps_previous = false;
}

abbrev pub watch_query : Text → Query
watch_query id = record {
  key = name "watches" ∷ name "detail" ∷ plain (word id) ∷ [];
  request = asks "/watches/{watch_id}" (field "watch_id" (word id) ∷ []) [];
  keeps_previous = false;
}

abbrev pub checks_query : Text → Option ℕ → Query
checks_query id page = record {
  key = name "watches" ∷ name "checks" ∷ plain (word id) ∷ plain (number (or_first page)) ∷ [];
  request =
      asks "/watches/{watch_id}/checks" (field "watch_id" (word id) ∷ [])
        (field "skip" (number (skip_of (or_first page))) ∷ field "limit" (number page_size) ∷ []);
  keeps_previous = true;
}

module _ {B : Type 0} where
  abbrev pub create_watch : B → Write B
  create_watch body = writes post "/watches/" [] body

  abbrev pub update_watch : Text → B → Option ℕ → Write (Versioned B)
  update_watch id body version =
      writes patch "/watches/{watch_id}" (field "watch_id" (word id) ∷ [])
        record { fields = body; version = version }

abbrev pub delete_watch : Text → Write Unit
delete_watch id = writes delete "/watches/{watch_id}" (field "watch_id" (word id) ∷ []) tt

abbrev pub archive_watch : Text → Write Unit
archive_watch id = writes post "/watches/{watch_id}/archive" (field "watch_id" (word id) ∷ []) tt

abbrev pub restore_watch : Text → Write Unit
restore_watch id = writes post "/watches/{watch_id}/restore" (field "watch_id" (word id) ∷ []) tt

module _ {B : Type 0} where
  -- `logCheck`.
  abbrev pub log_check : Text → B → Write B
  log_check id body = writes post "/watches/{watch_id}/check" (field "watch_id" (word id) ∷ []) body
