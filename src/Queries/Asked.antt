-- ===== src/Queries/Asked.antt =====
-- Every query of the API, by the function of frontend-next/src that builds it, and what it is about. The one
-- other query (`deployedQuery` of routes/_authed/system.tsx) fetches a file of the build.
use tiny_crm.Prelude.{ℕ, Bool, true, false, Option, Text}
use tiny_crm.Queries.{Query, Link, Key, Request}
use tiny_crm.Queries.Contacts.{
  ContactFilters, contacts_query, contact_query, TimelineFilters, contact_timeline_query,
  contact_options_query,
}
use tiny_crm.Queries.Organizations.{
  organizations_query, organization_query, org_contacts_query, organization_options_query,
}
use tiny_crm.Queries.Deals.{
  DealFilters, deals_query, board_query, deal_query, linked_deals_query, deal_options_query,
}
use tiny_crm.Queries.Tasks.{
  TaskFilters, tasks_query, due_tasks_query, task_query, TaskLink, linked_tasks_query,
  task_options_query,
}
use tiny_crm.Queries.Interactions.{
  InteractionFilters, interactions_query, interaction_query, linked_interactions_query,
  calendar_interactions_query,
}
use tiny_crm.Queries.Projects.{ProjectFilters, projects_query, project_query, project_options_query}
use tiny_crm.Queries.Documents.{
  DocumentFilters, documents_query, document_query, linked_documents_query, content_query,
  preview_query, document_options_query,
}
use tiny_crm.Queries.Watches.{
  WatchFilters, watches_query, due_watches_query, watch_query, checks_query,
}
use tiny_crm.Queries.Captures.{InboxTab, captures_query, capture_query, capture_count_query}
use tiny_crm.Queries.Dashboard.{
  me_query, metrics_query, briefing_query, open_deals_query, version_query, health_query,
}
use tiny_crm.Queries.Search.{SearchType, search_query, tags_query}

-- The tables behind the API. What a search finds, the signed-in user, the figures of the dashboard (metrics,
-- briefing, the count of open deals) and the state of the system stand apart: they are no rows of a table.
pub data Table : Type 0 where
  contacts organizations deals tasks interactions projects documents watches captures hits tags
        account figures system :
      Table

pub data Asked : Type 0 where
  contact_list : ContactFilters → Asked
  contact_page : Text → Asked
  contact_timeline : Text → Option TimelineFilters → Option ℕ → Asked
  contact_options : Text → Asked
  organization_list : Text → Bool → Asked
  organization_page : Text → Asked
  organization_contacts : Text → Asked
  organization_options : Text → Asked
  deal_list : DealFilters → Asked
  deal_board : Option Text → Option Text → Asked
  deal_page : Text → Asked
  deals_linked : Link → Option ℕ → Asked
  deal_options : Text → Asked
  task_list : TaskFilters → Asked
  tasks_due : Asked
  task_page : Text → Asked
  tasks_linked : TaskLink → Bool → Asked
  task_options : Text → Asked
  interaction_list : Bool → InteractionFilters → Asked
  interaction_page : Text → Asked
  interactions_linked : Link → Option ℕ → Asked
  interaction_calendar : Text → Text → Asked
  project_list : ProjectFilters → Asked
  project_page : Text → Asked
  project_options : Text → Asked
  document_list : DocumentFilters → Asked
  document_page : Text → Asked
  documents_linked : Link → Asked
  document_content : Text → Text → Asked
  document_preview : Text → Text → Asked
  document_options : Text → Asked
  watch_list : WatchFilters → Asked
  watches_due : Asked
  watch_page : Text → Asked
  watch_checks : Text → Option ℕ → Asked
  capture_list : InboxTab → Text → Asked
  capture_page : Text → Asked
  captures_count : Asked
  search_hits : Text → Option SearchType → Option ℕ → Option ℕ → Asked
  all_tags : Asked
  me briefing open_deals version health : Asked
  metrics : Text → Asked

-- The query that is built, at a moment whose next local midnight is `tomorrow`.
module _ (tomorrow : Text) where
  abbrev pub query_of : Asked → Query
  query_of (contact_list f) = contacts_query f
  query_of (contact_page id) = contact_query id
  query_of (contact_timeline id filter page) = contact_timeline_query id filter page
  query_of (contact_options search) = contact_options_query search
  query_of (organization_list search archived) = organizations_query search archived
  query_of (organization_page id) = organization_query id
  query_of (organization_contacts id) = org_contacts_query id
  query_of (organization_options search) = organization_options_query search
  query_of (deal_list f) = deals_query f
  query_of (deal_board q scope) = board_query q scope
  query_of (deal_page id) = deal_query id
  query_of (deals_linked link page) = linked_deals_query link page
  query_of (deal_options search) = deal_options_query search
  query_of (task_list f) = tasks_query f
  query_of tasks_due = due_tasks_query tomorrow
  query_of (task_page id) = task_query id
  query_of (tasks_linked link include_done) = linked_tasks_query link include_done
  query_of (task_options search) = task_options_query search
  query_of (interaction_list upcoming f) = interactions_query upcoming f
  query_of (interaction_page id) = interaction_query id
  query_of (interactions_linked link page) = linked_interactions_query link page
  query_of (interaction_calendar from until) = calendar_interactions_query from until
  query_of (project_list f) = projects_query f
  query_of (project_page id) = project_query id
  query_of (project_options search) = project_options_query search
  query_of (document_list f) = documents_query f
  query_of (document_page id) = document_query id
  query_of (documents_linked link) = linked_documents_query link
  query_of (document_content id updated_at) = content_query id updated_at
  query_of (document_preview id updated_at) = preview_query id updated_at
  query_of (document_options search) = document_options_query search
  query_of (watch_list f) = watches_query f
  query_of watches_due = due_watches_query
  query_of (watch_page id) = watch_query id
  query_of (watch_checks id page) = checks_query id page
  query_of (capture_list status search) = captures_query status search
  query_of (capture_page id) = capture_query id
  query_of captures_count = capture_count_query
  query_of (search_hits q type page limit) = search_query q type page limit
  query_of all_tags = tags_query
  query_of me = me_query
  query_of briefing = briefing_query
  query_of open_deals = open_deals_query
  query_of version = version_query
  query_of health = health_query
  query_of (metrics period) = metrics_query period

  abbrev pub key_of : Asked → Key
  key_of a = (query_of a).key

  abbrev pub request_of : Asked → Request
  request_of a = (query_of a).request

-- The table whose rows the answer holds, and whether it is a file or its preview.
abbrev pub table_of : Asked → Table
table_of (contact_list a) = contacts
table_of (contact_page a) = contacts
table_of (contact_timeline a b c) = contacts
table_of (contact_options a) = contacts
table_of (organization_list a b) = organizations
table_of (organization_page a) = organizations
table_of (organization_contacts a) = contacts
table_of (organization_options a) = organizations
table_of (deal_list a) = deals
table_of (deal_board a b) = deals
table_of (deal_page a) = deals
table_of (deals_linked a b) = deals
table_of (deal_options a) = deals
table_of (task_list a) = tasks
table_of tasks_due = tasks
table_of (task_page a) = tasks
table_of (tasks_linked a b) = tasks
table_of (task_options a) = tasks
table_of (interaction_list a b) = interactions
table_of (interaction_page a) = interactions
table_of (interactions_linked a b) = interactions
table_of (interaction_calendar a b) = interactions
table_of (project_list a) = projects
table_of (project_page a) = projects
table_of (project_options a) = projects
table_of (document_list a) = documents
table_of (document_page a) = documents
table_of (documents_linked a) = documents
table_of (document_content a b) = documents
table_of (document_preview a b) = documents
table_of (document_options a) = documents
table_of (watch_list a) = watches
table_of watches_due = watches
table_of (watch_page a) = watches
table_of (watch_checks a b) = watches
table_of (capture_list a b) = captures
table_of (capture_page a) = captures
table_of captures_count = captures
table_of (search_hits a b c d) = hits
table_of all_tags = tags
table_of me = account
table_of briefing = figures
table_of open_deals = figures
table_of version = system
table_of health = system
table_of (metrics a) = figures

abbrev pub is_file : Asked → Bool
is_file (contact_list a) = false
is_file (contact_page a) = false
is_file (contact_timeline a b c) = false
is_file (contact_options a) = false
is_file (organization_list a b) = false
is_file (organization_page a) = false
is_file (organization_contacts a) = false
is_file (organization_options a) = false
is_file (deal_list a) = false
is_file (deal_board a b) = false
is_file (deal_page a) = false
is_file (deals_linked a b) = false
is_file (deal_options a) = false
is_file (task_list a) = false
is_file tasks_due = false
is_file (task_page a) = false
is_file (tasks_linked a b) = false
is_file (task_options a) = false
is_file (interaction_list a b) = false
is_file (interaction_page a) = false
is_file (interactions_linked a b) = false
is_file (interaction_calendar a b) = false
is_file (project_list a) = false
is_file (project_page a) = false
is_file (project_options a) = false
is_file (document_list a) = false
is_file (document_page a) = false
is_file (documents_linked a) = false
is_file (document_content a b) = true
is_file (document_preview a b) = true
is_file (document_options a) = false
is_file (watch_list a) = false
is_file watches_due = false
is_file (watch_page a) = false
is_file (watch_checks a b) = false
is_file (capture_list a b) = false
is_file (capture_page a) = false
is_file captures_count = false
is_file (search_hits a b c d) = false
is_file all_tags = false
is_file me = false
is_file briefing = false
is_file open_deals = false
is_file version = false
is_file health = false
is_file (metrics a) = false
