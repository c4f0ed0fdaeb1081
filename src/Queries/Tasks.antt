-- ===== src/Queries/Tasks.antt =====
-- The tasks: the queries and writes of frontend-next/src/tasks.ts (labels and due dates are in Due.antt).
use tiny_crm.Prelude.{not, ℕ, Bool, true, false, Option, none, some, [], ◌∷◌, ◌++◌, Text}
use tiny_crm.Paging.{page_size, skip_of}
use tiny_crm.Queries.{
  or_first, or_first, or_first, Plain, word, flag, number, plain, object, Fields, Query, Write,
  Versioned, name, field, maybe_word, maybe_flag, filled_word, filled, set_flag, or_first, asks,
  writes, post, patch, delete,
}
use tiny_crm.Queries.Contacts.{picker_limit}

pub record TaskFilters : Type 0 where
  pub q : Option Text
  pub done : Option Bool
  pub archived : Option Bool
  pub page : Option ℕ

-- `done || archived || undefined`.
abbrev pub done_or_archived : Option Bool → Option Bool → Plain
done_or_archived (some true) archived = flag true
done_or_archived (some false) archived = set_flag archived
done_or_archived none archived = set_flag archived

abbrev pub tasks_query : TaskFilters → Query
tasks_query f = record {
  key =
      name "tasks"
      ∷ name "list"
      ∷ object (
          field "q" (maybe_word f.q)
          ∷ field "done" (maybe_flag f.done)
          ∷ field "archived" (maybe_flag f.archived)
          ∷ field "page" (number (or_first f.page))
          ∷ [])
      ∷ [];
  request = asks "/tasks/" [] (
      field "search" (filled f.q)
      ∷ field "include_done" (done_or_archived f.done f.archived)
      ∷ field "archived" (set_flag f.archived)
      ∷ field "skip" (number (skip_of (or_first f.page)))
      ∷ field "limit" (number page_size)
      ∷ []);
  keeps_previous = true;
}

-- `dueCountQuery`, at a moment whose next local midnight is `tomorrow`.
abbrev pub due_tasks_query : Text → Query
due_tasks_query tomorrow = record {
  key = name "tasks" ∷ name "due-count" ∷ [];
  request = asks "/tasks/" [] (field "due_before" (word tomorrow) ∷ field "limit" (number 1) ∷ []);
  keeps_previous = false;
}

abbrev pub task_query : Text → Query
task_query id = record {
  key = name "tasks" ∷ name "detail" ∷ plain (word id) ∷ [];
  request = asks "/tasks/{task_id}" (field "task_id" (word id) ∷ []) [];
  keeps_previous = false;
}

pub record TaskLink : Type 0 where
  pub contact_id : Option Text
  pub deal_id : Option Text
  pub interaction_id : Option Text

abbrev pub task_link_fields : TaskLink → Fields
task_link_fields l =
    field "contact_id" (maybe_word l.contact_id)
    ∷ field "deal_id" (maybe_word l.deal_id)
    ∷ field "interaction_id" (maybe_word l.interaction_id)
    ∷ []

abbrev pub linked_tasks_query : TaskLink → Bool → Query
linked_tasks_query link include_done = record {
  key =
      name "tasks"
      ∷ name "linked"
      ∷ object (task_link_fields link)
      ∷ plain (flag include_done)
      ∷ [];
  request = asks "/tasks/" [] (
      task_link_fields link
      ++ (field "include_done" (set_flag (some include_done)) ∷ field "limit" (number 50) ∷ []));
  keeps_previous = false;
}

-- `{ ...body, done: false }`.
pub record WithDone (B : Type 0) : Type 0 where
  pub fields : B
  pub done : Bool

module _ {B : Type 0} where
  abbrev pub create_task : B → Write (WithDone B)
  create_task body = writes post "/tasks/" [] record { fields = body; done = false }

  abbrev pub update_task : Text → B → Option ℕ → Write (Versioned B)
  update_task id body version =
      writes patch "/tasks/{task_id}" (field "task_id" (word id) ∷ [])
        record { fields = body; version = version }

abbrev pub delete_task : Text → Write Unit
delete_task id = writes delete "/tasks/{task_id}" (field "task_id" (word id) ∷ []) tt

abbrev pub archive_task : Text → Write Unit
archive_task id = writes post "/tasks/{task_id}/archive" (field "task_id" (word id) ∷ []) tt

abbrev pub restore_task : Text → Write Unit
restore_task id = writes post "/tasks/{task_id}/restore" (field "task_id" (word id) ∷ []) tt

-- `useToggleDone`: what a tick sends, and what the answer makes the list say.
abbrev pub toggle_done : Text → Bool → Write Bool
toggle_done id done = writes patch "/tasks/{task_id}" (field "task_id" (word id) ∷ []) (not done)

pub record Occurrence : Type 0 where
  pub title : Text
  pub due_date : Option Text

pub record Repeated : Type 0 where
  pub title : Text
  pub due : Text

abbrev pub repeated_at : Text → Option Text → Option Repeated
repeated_at title none = none
repeated_at title (some []) = none
repeated_at title (some (c ∷ s)) = some (record { title = title; due = c ∷ s })

abbrev pub repeated_of : Option Occurrence → Option Repeated
repeated_of none = none
repeated_of (some next) = repeated_at next.title next.due_date

abbrev pub task_options_query : Text → Query
task_options_query search = record {
  key = name "tasks" ∷ name "options" ∷ plain (word search) ∷ [];
  request =
      asks "/tasks/" []
        (field "search" (filled_word search) ∷ field "limit" (number picker_limit) ∷ []);
  keeps_previous = true;
}
