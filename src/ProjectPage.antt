-- ===== src/ProjectPage.antt =====
-- The page of a project: frontend-next/src/routes/_authed/projects/$projectId/index.tsx, with the field that
-- links a record (frontend-next/src/components/AddLinkPicker.tsx).
pub mod Links
pub mod Shown
mod Tests
use tiny_crm.Prelude.{
  ℕ, ◌-◌, Bool, true, false, ◌&&◌, ◌||◌, not, Option, none, some, List, [], ◌∷◌, ◌++◌, Text,
  text_eq, truthy, trim, filter, length, sort, is_some, if◌then◌else◌,
}

-- What a project is linked to.
pub record ProjectLinks : Type 0 where
  pub task_ids : List Text
  pub contact_ids : List Text
  pub document_ids : List Text

-- `Kind` of the field.
pub data Kind : Type 0 where
  contact task document : Kind

abbrev pub ids_of : Kind → ProjectLinks → List Text
ids_of contact p = p.contact_ids
ids_of task p = p.task_ids
ids_of document p = p.document_ids

-- `updateProject`: a list that is sent replaces what is stored, and no other list is touched.
pub record ProjectUpdate : Type 0 where
  pub kind : Kind
  pub ids : List Text

abbrev pub put_ids : Kind → List Text → ProjectLinks → ProjectLinks
put_ids contact ids p = record p { contact_ids = ids }
put_ids task ids p = record p { task_ids = ids }
put_ids document ids p = record p { document_ids = ids }

abbrev pub update_project : ProjectUpdate → ProjectLinks → ProjectLinks
update_project body p = put_ids body.kind body.ids p

-- `without`.
unfoldable pub without : List Text → Text → List Text
without ids id = filter (λ x. not (text_eq x id)) ids

-- The page: what the query holds of the project, what is on its way (`link`), and the tasks that the dialog
-- of a new task will send on, less that task. The server beside it.
pub record ProjectDetail : Type 0 where
  pub server : ProjectLinks
  pub p : ProjectLinks
  pub link : Option ProjectUpdate
  pub new_task : Option (List Text)

-- A choice of the field, "Unlink", the answer of the server, one that is lost after the server has
-- written, and a refusal; a write by any other way (the next instance of a repeating task that is ticked in
-- the list, which the server links, another tab, another user); a refetch; the dialog's form submitted,
-- its task created and linked, the answer to that
-- lost, and refused.
pub data Event : Type 0 where
  add_link : Kind → Text → Event
  unlink : Kind → Text → Event
  saved : Event
  lost : Event
  refused : Event
  other_write : ProjectLinks → Event
  refetched : Event
  submit_task : Text → Event
  task_saved : Text → Event
  task_lost : Text → Event
  task_refused : Event

abbrev pub mutate : ProjectUpdate → ProjectDetail → ProjectDetail
mutate body w = record w { link = some body }

abbrev pub written : Option ProjectUpdate → ProjectLinks → ProjectLinks
written none server = server
written (some body) server = update_project body server

abbrev pub linked_task : Option (List Text) → Text → ProjectLinks → ProjectLinks
linked_task none id server = server
linked_task (some ids) id server = put_ids task (ids ++ id ∷ []) server

unfoldable pub step : Event → ProjectDetail → ProjectDetail
unfolding without
step (add_link kind id) w =
    if truthy id && not (is_some w.link)
    then mutate (record { kind = kind; ids = ids_of kind w.p ++ id ∷ [] }) w
    else w
step (unlink kind id) w =
    if is_some w.link
    then w
    else mutate (record { kind = kind; ids = without (ids_of kind w.p) id }) w
step saved w =
    let server = written w.link w.server in
    if is_some w.link then record w { server = server; p = server; link = none } else w
step lost w = record w { server = written w.link w.server; link = none }
step refused w = record w { link = none }
step (other_write links) w = record w { server = links }
step refetched w = record w { p = w.server }
step (submit_task title) w =
    if truthy (trim title) && not (is_some w.new_task)
    then record w { new_task = some w.p.task_ids }
    else w
step (task_saved id) w =
    let server = linked_task w.new_task id w.server in
    if is_some w.new_task then record w { server = server; p = server; new_task = none } else w
step (task_lost id) w = record w { server = linked_task w.new_task id w.server; new_task = none }
step task_refused w = record w { new_task = none }

unfoldable pub run : List Event → ProjectDetail → ProjectDetail
unfolding step
run [] w = w
run (e ∷ es) w = run es (step e w)

-- What the page reads of a `TaskRead`, and the result of a query for one.
pub record Task : Type 0 where
  pub id : Text
  pub title : Text
  pub done : Bool
  pub archived : Bool
  pub due_date : Option Text

abbrev pub loaded : Option Task → List Task → List Task
loaded none rest = rest
loaded (some t) rest = if t.archived then rest else t ∷ rest

-- `tasks` and `openTasks`.
unfoldable pub tasks_of : List (Option Task) → List Task
tasks_of [] = []
tasks_of (r ∷ rs) = loaded r (tasks_of rs)

unfoldable pub open_tasks : List Task → List Task
open_tasks tasks = filter (λ t. not t.done) tasks

-- `a.localeCompare(b)`: negative, zero, positive.
pub data Comparison : Type 0 where
  less same more : Comparison

abbrev pub or_then : Comparison → Comparison → Comparison
or_then less c = less
or_then same c = c
or_then more c = more

abbrev pub is_not_more : Comparison → Bool
is_not_more less = true
is_not_more same = true
is_not_more more = false

abbrev pub or_last : Option Text → Text
or_last none = b'9' ∷ b'9' ∷ b'9' ∷ b'9' ∷ []
or_last (some due) = due

module _ (locale_compare : Text → Text → Comparison) where
  -- `byDue`.
  unfoldable pub by_due : Task → Task → Comparison
  by_due a b =
      or_then (locale_compare (or_last a.due_date) (or_last b.due_date))
        (locale_compare a.title b.title)

  -- `shownTasks`.
  unfoldable pub shown_tasks : Bool → List (Option Task) → List Task
  unfolding tasks_of open_tasks by_due sort
  shown_tasks show_done results =
      sort (λ a b. is_not_more (by_due a b))
        (if show_done then tasks_of results else open_tasks (tasks_of results))

-- The number behind "Show done".
unfoldable pub hidden_count : List (Option Task) → ℕ
unfolding tasks_of open_tasks
hidden_count results = length (tasks_of results) - length (open_tasks (tasks_of results))
