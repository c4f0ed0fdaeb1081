-- ===== src/Queries/Refreshed.antt =====
-- Which cached answers a write makes stale (the filters of frontend-next/src, against every query).
use tiny_crm.Prelude.{Bool, false, not, List, [], ◌∷◌}
use tiny_crm.Queries.{name}
use tiny_crm.Queries.Stale.{
  all_under, Filter, invalidate_contacts, invalidate_deals, invalidate_tasks,
  invalidate_interactions, invalidate_projects, invalidate_documents, invalidate_watches,
  invalidate_after_capture, invalidate_tags,
}
use tiny_crm.Queries.Asked.{
  Asked, Table, is_file, contacts, deals, tasks, interactions, projects, documents, watches,
  captures, tags, organization_page, organization_options, organizations,
}

-- `onSuccess` of the pages that create and edit an organization (routes/_authed/organizations/new.tsx and
-- $organizationId/edit.tsx); the page of the organization takes the answer itself.
abbrev pub invalidate_after_organization : List Filter
invalidate_after_organization = all_under (name "organizations" ∷ name "list" ∷ []) ∷ []

-- The filters that a write to the rows of a table ends with; of an organization, on its own pages.
pub data Writes : Table → List Filter → Type 0 where
  contact_write : Writes contacts invalidate_contacts
  organization_write : Writes organizations invalidate_after_organization
  deal_write : Writes deals invalidate_deals
  task_write : Writes tasks invalidate_tasks
  interaction_write : Writes interactions invalidate_interactions
  project_write : Writes projects invalidate_projects
  document_write : Writes documents invalidate_documents
  watch_write : Writes watches invalidate_watches
  capture_write : (converted : Bool) → Writes captures (invalidate_after_capture converted)
  tag_write : Writes tags invalidate_tags

-- Whether the filters are meant to reach a cached answer: not the files of documents and their previews, and
-- of the organizations only their lists.
abbrev pub is_refreshed : Asked → Bool
is_refreshed (organization_page id) = false
is_refreshed (organization_options search) = false
is_refreshed a = not (is_file a)
