-- ===== src/ProjectPage/Tests.antt =====
-- Links changed on the page of a project (frontend-next/src/routes/_authed/projects/$projectId/index.tsx).
use tiny_crm.Prelude.{true, ◌≡◌, refl, [], ◌∷◌, List, codes, trim, is_space}
use tiny_crm.ProjectPage.{
  refetched, other_write, ProjectLinks, contact, task, Event, add_link, unlink, saved, submit_task,
  task_saved, run, step,
}
use tiny_crm.ProjectPage.Links.{
  or_links, opened, nothing_asked, mean_all, mean, one_at_a_time, run-mean_all,
}

abbrev linked : ProjectLinks
linked = record { task_ids = codes "t1" ∷ []; contact_ids = []; document_ids = [] }

abbrev repeated : ProjectLinks
repeated = record {
  task_ids = codes "t2" ∷ codes "t5" ∷ [];
  contact_ids = codes "c1" ∷ [];
  document_ids = [];
}

abbrev events : List Event
events =
    add_link contact (codes "c1")
    ∷ unlink task (codes "t1")
    ∷ saved
    ∷ submit_task (codes "Call")
    ∷ task_saved (codes "t2")
    ∷ unlink task (codes "t1")
    ∷ saved
    ∷ other_write repeated
    ∷ refetched
    ∷ unlink task (codes "t2")
    ∷ saved
    ∷ []

calm : one_at_a_time events (nothing_asked linked) ≡ true
unfolding one_at_a_time mean trim is_space
calm = refl

run-mean_all_example :
    ((run events (opened linked)).server ≡ (mean_all events (nothing_asked linked)).links)
    × ((run events (opened linked)).p
        ≡ or_links
            (mean_all events (nothing_asked linked)).shown
            (mean_all events (nothing_asked linked)).links)
run-mean_all_example = run-mean_all linked events calm

-- The next instance of a task that is ticked is dropped again by a link made before the page knows of it.
lost_instance :
    (run
      (other_write repeated ∷ unlink task (codes "t1") ∷ saved ∷ [])
      (opened linked)).server.task_ids
    ≡ []
unfolding run step
lost_instance = refl

-- A task that is linked while a new one is being made is dropped again.
dropped :
    (run
      (submit_task (codes "Call")
        ∷ add_link task (codes "t3")
        ∷ saved
        ∷ task_saved (codes "t2")
        ∷ [])
      (opened linked)).server.task_ids
    ≡ codes "t1" ∷ codes "t2" ∷ []
unfolding run step trim is_space
dropped = refl
