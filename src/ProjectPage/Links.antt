-- ===== src/ProjectPage/Links.antt =====
-- Links that are made and taken away one by one, though whole lists are sent
-- (frontend-next/src/routes/_authed/projects/$projectId/index.tsx).
use tiny_crm.Prelude.{
  false-ne-true, ◌≡◌, refl, sym, ap, ◌∙◌, Bool, true, false, ◌&&◌, ◌||◌, not, Option, none, some,
  List, [], ◌∷◌, ◌++◌, Text, truthy, trim, is_some, arith, Bool-cases, inl, inr, if◌then◌else◌,
}
use tiny_crm.ProjectPage.{
  ProjectLinks, Kind, task, ids_of, ProjectUpdate, put_ids, without, ProjectDetail, Event, add_link,
  unlink, saved, lost, refused, other_write, refetched, submit_task, task_saved, task_lost,
  task_refused, step, run,
}

-- One change of one link.
pub data Change : Type 0 where
  add : Kind → Text → Change
  remove : Kind → Text → Change

unfoldable pub change : Change → ProjectLinks → ProjectLinks
change (add kind id) p = put_ids kind (ids_of kind p ++ id ∷ []) p
change (remove kind id) p = put_ids kind (without (ids_of kind p) id) p

-- What is meant: the change that is asked for, done at once to what the server has when it answers.
-- `shown` is what the page still shows after another write, until it is fetched again.
pub record Meant : Type 0 where
  pub links : ProjectLinks
  pub asked : Option Change
  pub creating : Bool
  pub shown : Option ProjectLinks

abbrev pub or_links : Option ProjectLinks → ProjectLinks → ProjectLinks
or_links none p = p
or_links (some old) p = old

abbrev pub done : Option Change → ProjectLinks → ProjectLinks
done none p = p
done (some c) p = change c p

unfoldable pub mean : Event → Meant → Meant
mean (add_link kind id) m =
    if truthy id && not (is_some m.asked) then record m { asked = some (add kind id) } else m
mean (unlink kind id) m = if is_some m.asked then m else record m { asked = some (remove kind id) }
mean saved m = record m { links = done m.asked m.links; asked = none }
mean lost m = record m { links = done m.asked m.links; asked = none }
mean refused m = record m { asked = none }
mean (other_write links) m = record m { links = links; shown = some (or_links m.shown m.links) }
mean refetched m = record m { shown = none }
mean (submit_task title) m = if truthy (trim title) then record m { creating = true } else m
mean (task_saved id) m =
    if m.creating then record m { links = change (add task id) m.links; creating = false } else m
mean (task_lost id) m =
    if m.creating then record m { links = change (add task id) m.links; creating = false } else m
mean task_refused m = record m { creating = false }

unfoldable pub mean_all : List Event → Meant → Meant
mean_all [] m = m
mean_all (e ∷ es) m = mean_all es (mean e m)

abbrev pub is_lost : Event → Bool
is_lost lost = true
is_lost (task_lost id) = true
is_lost e = false

-- Two of a link on its way, a new task on its way, and another write that the page does not show yet.
abbrev pub clash : Option Change → Bool → Option ProjectLinks → Bool
clash asked creating shown =
    (is_some asked && creating) || ((is_some asked || creating) && is_some shown)

-- No answer is lost, and there is never such a clash.
unfoldable pub one_at_a_time : List Event → Meant → Bool
unfolding mean
one_at_a_time [] m = not (clash m.asked m.creating m.shown)
one_at_a_time (e ∷ es) m =
    let later = one_at_a_time es (mean e m) in
    not (clash m.asked m.creating m.shown) && (not (is_lost e) && later)

body_of : ProjectLinks → Change → ProjectUpdate
body_of p (add kind id) = record { kind = kind; ids = ids_of kind p ++ id ∷ [] }
body_of p (remove kind id) = record { kind = kind; ids = without (ids_of kind p) id }

sent_of : ProjectLinks → Option Change → Option ProjectUpdate
sent_of p none = none
sent_of p (some c) = some (body_of p c)

tasks_of_new : ProjectLinks → Bool → Option (List Text)
tasks_of_new p false = none
tasks_of_new p true = some p.task_ids

-- The page and the server where `m` is meant.
page_of : Meant → ProjectDetail
page_of m = record {
  server = m.links;
  p = or_links m.shown m.links;
  link = sent_of (or_links m.shown m.links) m.asked;
  new_task = tasks_of_new (or_links m.shown m.links) m.creating;
}

at : ProjectLinks → Option Change → Bool → Option ProjectLinks → Meant
at p asked creating shown = record { links = p; asked = asked; creating = creating; shown = shown }

step-page_of :
    (e : Event) (p : ProjectLinks) (asked : Option Change) (creating : Bool)
    (shown : Option ProjectLinks)
    → clash asked creating shown ≡ false
    → is_lost e ≡ false
    → step e (page_of (at p asked creating shown)) ≡ page_of (mean e (at p asked creating shown))
unfolding step mean page_of at sent_of tasks_of_new body_of change
step-page_of (add_link kind id) p none creating shown h l = elim (Bool-cases (truthy id)) [
  | inl e ↦ rw e
  | inr e ↦ rw e
]
step-page_of (add_link kind id) p (some c) creating shown h l = elim (Bool-cases (truthy id)) [
  | inl e ↦ rw e
  | inr e ↦ rw e
]
step-page_of (unlink kind id) p none creating shown h l = refl
step-page_of (unlink kind id) p (some c) creating shown h l = refl
step-page_of saved p none creating shown h l = refl
step-page_of saved p (some (add kind id)) false none h l = refl
step-page_of saved p (some (remove kind id)) false none h l = refl
step-page_of saved p (some c) false (some old) h l = absurd (false-ne-true (sym h))
step-page_of saved p (some c) true shown h l = absurd (false-ne-true (sym h))
step-page_of lost p asked creating shown h l = absurd (false-ne-true (sym l))
step-page_of refused p asked creating shown h l = refl
step-page_of (other_write links) p asked creating shown h l = refl
step-page_of refetched p asked creating none h l = refl
step-page_of refetched p none false (some old) h l = refl
step-page_of refetched p none true (some old) h l = absurd (false-ne-true (sym h))
step-page_of refetched p (some c) creating (some old) h l =
    absurd (false-ne-true (ground (arith, h)))
step-page_of (submit_task title) p asked false shown h l = elim (Bool-cases (truthy (trim title))) [
  | inl e ↦ rw e
  | inr e ↦ rw e
]
step-page_of (submit_task title) p asked true shown h l = elim (Bool-cases (truthy (trim title))) [
  | inl e ↦ rw e
  | inr e ↦ rw e
]
step-page_of (task_saved id) p asked false shown h l = refl
step-page_of (task_saved id) p none true none h l = refl
step-page_of (task_saved id) p none true (some old) h l = absurd (false-ne-true (sym h))
step-page_of (task_saved id) p (some c) true shown h l = absurd (false-ne-true (sym h))
step-page_of (task_lost id) p asked creating shown h l = absurd (false-ne-true (sym l))
step-page_of task_refused p asked creating shown h l = refl

run-page_of :
    (es : List Event) (m : Meant)
    → one_at_a_time es m ≡ true
    → run es (page_of m) ≡ page_of (mean_all es m)
unfolding run mean_all one_at_a_time at
run-page_of [] m h = refl
run-page_of (e ∷ es) m h =
    ap (run es)
      (step-page_of e m.links m.asked m.creating m.shown (ground (arith, h)) (ground (arith, h)))
    ∙ run-page_of es (mean e m) (ground (arith, h))

abbrev pub opened : ProjectLinks → ProjectDetail
opened p = record { server = p; p = p; link = none; new_task = none }

abbrev pub nothing_asked : ProjectLinks → Meant
nothing_asked p = record { links = p; asked = none; creating = false; shown = none }

-- Though the page sends whole lists: if no answer is lost, if a new task and a link are never on their
-- way together, and if neither is on its way while someone else has written (a repeating task that is
-- ticked files its next instance, another tab or user links) and the page is not fetched again
-- yet, then the server has just what was linked and unlinked one by one and written by the others,
-- each done to what it had then; and the page shows it, or, until it is fetched again, what it showed
-- before the others wrote.
pub run-mean_all :
    (p : ProjectLinks) (es : List Event)
    → one_at_a_time es (nothing_asked p) ≡ true
    → ((run es (opened p)).server ≡ (mean_all es (nothing_asked p)).links)
      × ((run es (opened p)).p
          ≡ or_links (mean_all es (nothing_asked p)).shown (mean_all es (nothing_asked p)).links)
unfolding page_of sent_of tasks_of_new
run-mean_all p es h =
    let same = run-page_of es (nothing_asked p) h in (ap (λ w. w.server) same, ap (λ w. w.p) same)
