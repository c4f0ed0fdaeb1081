-- ===== src/Queries/Projects.antt =====
-- The projects: the queries and writes of frontend-next/src/projects.ts (the status is in Due.antt).
use tiny_crm.Prelude.{ℕ, Bool, true, false, Option, [], ◌∷◌, Text}
use tiny_crm.Paging.{page_size, skip_of}
use tiny_crm.Queries.{
  or_first, or_first, or_first, word, number, plain, object, Query, Write, Versioned, name, field,
  maybe_word, maybe_flag, filled_word, filled, set_flag, or_first, asks, writes, post, patch,
  delete,
}
use tiny_crm.Queries.Contacts.{picker_limit}

pub record ProjectFilters : Type 0 where
  pub q : Option Text
  pub archived : Option Bool
  pub page : Option ℕ

abbrev pub projects_query : ProjectFilters → Query
projects_query f = record {
  key =
      name "projects"
      ∷ name "list"
      ∷ object (
          field "q" (maybe_word f.q)
          ∷ field "archived" (maybe_flag f.archived)
          ∷ field "page" (number (or_first f.page))
          ∷ [])
      ∷ [];
  request = asks "/projects/" [] (
      field "search" (filled f.q)
      ∷ field "archived" (set_flag f.archived)
      ∷ field "skip" (number (skip_of (or_first f.page)))
      ∷ field "limit" (number page_size)
      ∷ []);
  keeps_previous = true;
}

abbrev pub project_query : Text → Query
project_query id = record {
  key = name "projects" ∷ name "detail" ∷ plain (word id) ∷ [];
  request = asks "/projects/{project_id}" (field "project_id" (word id) ∷ []) [];
  keeps_previous = false;
}

abbrev pub project_options_query : Text → Query
project_options_query search = record {
  key = name "projects" ∷ name "options" ∷ plain (word search) ∷ [];
  request =
      asks "/projects/" []
        (field "search" (filled_word search) ∷ field "limit" (number picker_limit) ∷ []);
  keeps_previous = true;
}

module _ {B : Type 0} where
  abbrev pub create_project : B → Write B
  create_project body = writes post "/projects/" [] body

  abbrev pub update_project : Text → B → Option ℕ → Write (Versioned B)
  update_project id body version =
      writes patch "/projects/{project_id}" (field "project_id" (word id) ∷ [])
        record { fields = body; version = version }

abbrev pub delete_project : Text → Write Unit
delete_project id = writes delete "/projects/{project_id}" (field "project_id" (word id) ∷ []) tt

abbrev pub archive_project : Text → Write Unit
archive_project id =
    writes post "/projects/{project_id}/archive" (field "project_id" (word id) ∷ []) tt

abbrev pub restore_project : Text → Write Unit
restore_project id =
    writes post "/projects/{project_id}/restore" (field "project_id" (word id) ∷ []) tt
