-- ===== src/Queries/Cached/Tables.antt =====
-- Reading the request of a query back from its key, table by table (the queries of frontend-next/src).
use tiny_crm.Prelude.{ℕ, some, List, [], Text, codes, text_eq, if◌then◌else◌}
use tiny_crm.Queries.{Plain, missing, word, flag, number, words, Key, Request, asks}
use tiny_crm.Queries.Contacts.{
  contacts_query, contact_query, contact_timeline_query, contact_options_query,
}
use tiny_crm.Queries.Organizations.{
  organizations_query, organization_query, org_contacts_query, organization_options_query,
}
use tiny_crm.Queries.Deals.{
  deals_query, board_query, deal_query, linked_deals_query, deal_options_query,
}
use tiny_crm.Queries.Tasks.{
  tasks_query, due_tasks_query, task_query, linked_tasks_query, task_options_query,
}
use tiny_crm.Queries.Interactions.{
  interactions_query, interaction_query, linked_interactions_query, calendar_interactions_query,
}
use tiny_crm.Queries.Projects.{projects_query, project_query, project_options_query}
use tiny_crm.Queries.Documents.{
  documents_query, document_query, linked_documents_query, content_query, preview_query,
  document_options_query,
}
use tiny_crm.Queries.Watches.{watches_query, due_watches_query, watch_query, checks_query}
use tiny_crm.Queries.Captures.{captures_query, capture_query, capture_count_query}
use tiny_crm.Queries.Dashboard.{
  me_query, metrics_query, briefing_query, open_deals_query, version_query, health_query,
}
use tiny_crm.Queries.Search.{search_query, tags_query}
use tiny_crm.Queries.Cached.Values.{
  values, nth, text_of, word_of, bool_of, flag_of, number_of, words_of, scope_of, tab_of, type_of,
}

abbrev pub nothing : Request
nothing = asks "" [] []

-- The page stands behind a filter of two values, or behind none.
abbrev pub page_at : Plain → Plain → ℕ
page_at (number n) v = n
page_at missing v = number_of v
page_at (word t) v = number_of v
page_at (flag b) v = number_of v
page_at (words ts) v = number_of v

abbrev pub read_timeline : List Plain → Request
read_timeline vs =
    (contact_timeline_query (word_of (nth 2 vs))
      (some (record { types = words_of (nth 3 vs); archived = bool_of (nth 4 vs) }))
      (some (page_at (nth 4 vs) (nth 5 vs)))).request

module _ (tomorrow : Text) where
  abbrev pub read_contacts : Text → List Plain → Request
  read_contacts s vs =
      if text_eq s (codes "list")
      then (contacts_query (record {
        q = (text_of (nth 2 vs));
        status = (text_of (nth 3 vs));
        relation = (text_of (nth 4 vs));
        archived = (bool_of (nth 5 vs));
        page = (some (number_of (nth 6 vs)));
      })).request
      else if text_eq s (codes "detail")
      then (contact_query (word_of (nth 2 vs))).request
      else if text_eq s (codes "timeline")
      then read_timeline vs
      else if text_eq s (codes "options")
      then (contact_options_query (word_of (nth 2 vs))).request
      else if text_eq s (codes "by-organization")
      then (org_contacts_query (word_of (nth 2 vs))).request
      else nothing

  abbrev pub read_organizations : Text → List Plain → Request
  read_organizations s vs =
      if text_eq s (codes "list")
      then (organizations_query (word_of (nth 2 vs)) (flag_of (nth 3 vs))).request
      else if text_eq s (codes "detail")
      then (organization_query (word_of (nth 2 vs))).request
      else if text_eq s (codes "options")
      then (organization_options_query (word_of (nth 2 vs))).request
      else nothing

  abbrev pub read_deals : Text → List Plain → Request
  read_deals s vs =
      if text_eq s (codes "list")
      then (deals_query (record {
        q = (text_of (nth 2 vs));
        scope = (text_of (nth 3 vs));
        archived = (bool_of (nth 4 vs));
        page = (some (number_of (nth 5 vs)));
      })).request
      else if text_eq s (codes "board")
      then (board_query (text_of (nth 2 vs)) (text_of (nth 3 vs))).request
      else if text_eq s (codes "detail")
      then (deal_query (word_of (nth 2 vs))).request
      else if text_eq s (codes "linked")
      then (linked_deals_query
          (record {
            contact_id = (text_of (nth 2 vs));
            organization_id = (text_of (nth 3 vs));
            deal_id = (text_of (nth 4 vs));
            project_id = (text_of (nth 5 vs));
          })
          (some (number_of (nth 6 vs)))).request
      else if text_eq s (codes "options")
      then (deal_options_query (word_of (nth 2 vs))).request
      else nothing

  abbrev pub read_tasks : Text → List Plain → Request
  read_tasks s vs =
      if text_eq s (codes "list")
      then (tasks_query (record {
        q = (text_of (nth 2 vs));
        done = (bool_of (nth 3 vs));
        archived = (bool_of (nth 4 vs));
        page = (some (number_of (nth 5 vs)));
      })).request
      else if text_eq s (codes "due-count")
      then (due_tasks_query tomorrow).request
      else if text_eq s (codes "detail")
      then (task_query (word_of (nth 2 vs))).request
      else if text_eq s (codes "linked")
      then (linked_tasks_query
          (record {
            contact_id = (text_of (nth 2 vs));
            deal_id = (text_of (nth 3 vs));
            interaction_id = (text_of (nth 4 vs));
          })
          (flag_of (nth 5 vs))).request
      else if text_eq s (codes "options")
      then (task_options_query (word_of (nth 2 vs))).request
      else nothing

  abbrev pub read_interactions : Text → List Plain → Request
  read_interactions s vs =
      if text_eq s (codes "list")
      then (interactions_query (flag_of (nth 2 vs)) (record {
        q = (text_of (nth 3 vs));
        kind = (text_of (nth 4 vs));
        archived = (bool_of (nth 5 vs));
        page = (some (number_of (nth 6 vs)));
      })).request
      else if text_eq s (codes "detail")
      then (interaction_query (word_of (nth 2 vs))).request
      else if text_eq s (codes "linked")
      then (linked_interactions_query
          (record {
            contact_id = (text_of (nth 2 vs));
            organization_id = (text_of (nth 3 vs));
            deal_id = (text_of (nth 4 vs));
            project_id = (text_of (nth 5 vs));
          })
          (some (number_of (nth 6 vs)))).request
      else if text_eq s (codes "calendar")
      then (calendar_interactions_query (word_of (nth 2 vs)) (word_of (nth 3 vs))).request
      else nothing

  abbrev pub read_projects : Text → List Plain → Request
  read_projects s vs =
      if text_eq s (codes "list")
      then (projects_query (record {
        q = (text_of (nth 2 vs));
        archived = (bool_of (nth 3 vs));
        page = (some (number_of (nth 4 vs)));
      })).request
      else if text_eq s (codes "detail")
      then (project_query (word_of (nth 2 vs))).request
      else if text_eq s (codes "options")
      then (project_options_query (word_of (nth 2 vs))).request
      else nothing

  abbrev pub read_documents : Text → List Plain → Request
  read_documents s vs =
      if text_eq s (codes "list")
      then (documents_query (record {
        q = (text_of (nth 2 vs));
        archived = (bool_of (nth 3 vs));
        page = (some (number_of (nth 4 vs)));
      })).request
      else if text_eq s (codes "detail")
      then (document_query (word_of (nth 2 vs))).request
      else if text_eq s (codes "linked")
      then (linked_documents_query (record {
        contact_id = (text_of (nth 2 vs));
        organization_id = (text_of (nth 3 vs));
        deal_id = (text_of (nth 4 vs));
        project_id = (text_of (nth 5 vs));
      })).request
      else if text_eq s (codes "content")
      then (content_query (word_of (nth 2 vs)) (word_of (nth 3 vs))).request
      else if text_eq s (codes "preview")
      then (preview_query (word_of (nth 2 vs)) (word_of (nth 3 vs))).request
      else if text_eq s (codes "options")
      then (document_options_query (word_of (nth 2 vs))).request
      else nothing

  abbrev pub read_watches : Text → List Plain → Request
  read_watches s vs =
      if text_eq s (codes "list")
      then (watches_query (record {
        q = (text_of (nth 2 vs));
        scope = some (scope_of (word_of (nth 3 vs)));
        kind = (text_of (nth 4 vs));
        archived = (bool_of (nth 5 vs));
        page = (some (number_of (nth 6 vs)));
      })).request
      else if text_eq s (codes "due-count")
      then (due_watches_query).request
      else if text_eq s (codes "detail")
      then (watch_query (word_of (nth 2 vs))).request
      else if text_eq s (codes "checks")
      then (checks_query (word_of (nth 2 vs)) (some (number_of (nth 3 vs)))).request
      else nothing

  abbrev pub read_captures : Text → List Plain → Request
  read_captures s vs =
      if text_eq s (codes "list")
      then (captures_query (tab_of (word_of (nth 2 vs))) (word_of (nth 3 vs))).request
      else if text_eq s (codes "detail")
      then (capture_query (word_of (nth 2 vs))).request
      else if text_eq s (codes "count")
      then (capture_count_query).request
      else nothing

  abbrev pub read_system : Text → Request
  read_system s =
      if text_eq s (codes "version")
      then version_query.request
      else if text_eq s (codes "health")
      then health_query.request
      else nothing

  abbrev pub read_table : Text → Text → List Plain → Request
  read_table t s vs =
      if text_eq t (codes "contacts")
      then read_contacts s vs
      else if text_eq t (codes "organizations")
      then read_organizations s vs
      else if text_eq t (codes "deals")
      then read_deals s vs
      else if text_eq t (codes "tasks")
      then read_tasks s vs
      else if text_eq t (codes "interactions")
      then read_interactions s vs
      else if text_eq t (codes "projects")
      then read_projects s vs
      else if text_eq t (codes "documents")
      then read_documents s vs
      else if text_eq t (codes "watches")
      then read_watches s vs
      else if text_eq t (codes "captures")
      then read_captures s vs
      else if text_eq t (codes "search")
      then (search_query (word_of (nth 1 vs)) (type_of (word_of (nth 2 vs)))
          (some (number_of (nth 3 vs))) (some (number_of (nth 4 vs)))).request
      else if text_eq t (codes "tags")
      then (tags_query).request
      else if text_eq t (codes "me")
      then me_query.request
      else if text_eq t (codes "metrics")
      then (metrics_query (word_of (nth 2 vs))).request
      else if text_eq t (codes "briefing")
      then briefing_query.request
      else if text_eq t (codes "count")
      then open_deals_query.request
      else if text_eq t (codes "system")
      then read_system s
      else nothing

  unfoldable pub read : Key → Request
  read k = read_table (word_of (nth 0 (values k))) (word_of (nth 1 (values k))) (values k)
