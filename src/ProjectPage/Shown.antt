-- ===== src/ProjectPage/Shown.antt =====
-- The tasks on the page of a project (frontend-next/src/routes/_authed/projects/$projectId/index.tsx).
use mathlib.Core.List.{Perm}
use tiny_crm.Prelude.{
  Text, ap, ◌+◌, ◌≡◌, refl, Bool, true, false, not, ◌||◌, List, [], ◌∷◌, Option, arith, filter,
  length, sort-Perm, Bool-cases, inl, inr, if◌then◌else◌, subst,
}
use tiny_crm.ProjectPage.{Task, tasks_of, open_tasks, Comparison, shown_tasks, hidden_count}

wanted :
    (show_done : Bool) (tasks : List Task)
    → (if show_done then tasks else open_tasks tasks) ≡ filter (λ t. show_done || not t.done) tasks
unfolding open_tasks
wanted false tasks = refl
wanted true [] = refl
wanted true (t ∷ tasks) = ap (◌∷◌ t) (wanted true tasks)

count_open :
    (tasks : List Task)
    → length tasks ≡ length (open_tasks tasks) + length (filter (λ t. t.done) tasks)
unfolding open_tasks
count_open [] = refl
count_open (t ∷ tasks) = elim (Bool-cases t.done) [
  | inl e ↦ rw e (let ih = count_open tasks in omega arith)
  | inr e ↦ rw e (let ih = count_open tasks in omega arith)
]

module _ (locale_compare : Text → Text → Comparison) (show_done : Bool)
    (results : List (Option Task)) where
  -- The list has the tasks that are loaded and not archived, in some order, the done ones only where they
  -- are asked for; and the number behind the switch is that of the done ones.
  pub shown_tasks_lem :
      Perm
        (shown_tasks locale_compare show_done results)
        (filter (λ t. show_done || not t.done) (tasks_of results))
      × (hidden_count results ≡ length (filter (λ t. t.done) (tasks_of results)))
  unfolding shown_tasks hidden_count
  shown_tasks_lem = (
    subst (Perm _) (wanted show_done (tasks_of results))
        (sort-Perm _ (if show_done then tasks_of results else open_tasks (tasks_of results))),
    (let counted = count_open (tasks_of results) in omega arith),
  )
