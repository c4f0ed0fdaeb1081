-- ===== src/Queries/Cached.antt =====
-- Whether a key tells what its cached answer was asked for (the queries of frontend-next/src).
mod Values
mod Tables
use tiny_crm.Prelude.{
  ℕ, zero, suc, ◌≡◌, refl, sym, ap, ◌∙◌, Bool, Option, none, some, List, [], ◌∷◌, ◌++◌, Text, codes,
  text_eq, if◌then◌else◌,
}
use tiny_crm.Queries.{
  Plain, missing, word, flag, number, words, Fields, plain, object, Key, Request, maybe_word,
  maybe_flag, maybe_words, asks,
}
use tiny_crm.Queries.Contacts.{
  contacts_query, contact_query, TimelineFilters, or_false, contact_timeline_query,
  contact_options_query,
}
use tiny_crm.Queries.Organizations.{
  organizations_query, organization_query, org_contacts_query, organization_options_query,
}
use tiny_crm.Queries.Deals.{
  deals_query, board_query, deal_query, linked_deals_query, deal_options_query,
}
use tiny_crm.Queries.Tasks.{
  tasks_query, due_tasks_query, task_query, linked_tasks_query, task_options_query,
}
use tiny_crm.Queries.Interactions.{interactions_query, interaction_query, linked_interactions_query}
use tiny_crm.Queries.Projects.{projects_query, project_query, project_options_query}
use tiny_crm.Queries.Documents.{
  documents_query, document_query, linked_documents_query, content_query, preview_query,
  document_options_query,
}
use tiny_crm.Queries.Watches.{
  WatchScope, scope_value, or_due, watches_query, due_watches_query, watch_query, checks_query, due,
  active, all,
}
use tiny_crm.Queries.Captures.{
  InboxTab, tab_value, captures_query, capture_query, capture_count_query, new, converted,
  dismissed, archived,
}
use tiny_crm.Queries.Search.{
  SearchType, type_or_all, search_query, tags_query, contacts, organizations, deals, tasks,
  interactions, projects, documents, watches, captures,
}
use tiny_crm.Queries.Asked.{
  Asked, key_of, request_of, contact_list, contact_page, contact_timeline, contact_options,
  organization_list, organization_page, organization_contacts, organization_options, deal_list,
  deal_board, deal_page, deals_linked, deal_options, task_list, tasks_due, task_page, tasks_linked,
  task_options, interaction_list, interaction_page, interactions_linked, project_list, project_page,
  project_options, document_list, document_page, documents_linked, document_content,
  document_preview, document_options, watch_list, watches_due, watch_page, watch_checks,
  capture_list, capture_page, captures_count, search_hits, all_tags, interaction_calendar, me,
  briefing, open_deals, version, health, metrics,
}
use tiny_crm.Queries.Cached.Values.{
  field_values, values, nth, text_of, word_of, bool_of, flag_of, number_of, words_of,
  text_of-maybe_word, bool_of-maybe_flag, words_of-maybe_words, scope_of, scope_of-scope_value,
  tab_of, tab_of-tab_value, type_of, type_of-type_or_all,
}
use tiny_crm.Queries.Cached.Tables.{
  nothing, page_at, read_timeline, read_contacts, read_organizations, read_deals, read_tasks,
  read_interactions, read_projects, read_documents, read_watches, read_captures, read_table, read,
}

module _ (tomorrow : Text) where
  read-timeline :
      (id : Text) (filter : Option TimelineFilters) (page : Option ℕ)
      → read tomorrow (key_of tomorrow (contact_timeline id filter page))
        ≡ request_of tomorrow (contact_timeline id filter page)
  unfolding read
  read-timeline id none page = refl
  read-timeline id (some f) page = by_types f.types f.archived
    where
      by_types :
          (ts : Option (List Text)) (b : Option Bool)
          → read_timeline (
              values (
                key_of tomorrow
                  (contact_timeline id (some (record { types = ts; archived = b })) page)))
            ≡ request_of tomorrow
                (contact_timeline id (some (record { types = ts; archived = b })) page)
      by_types none none = refl
      by_types none (some b) = refl
      by_types (some ts) none = refl
      by_types (some ts) (some b) = refl

  read-key_of : (a : Asked) → read tomorrow (key_of tomorrow a) ≡ request_of tomorrow a
  unfolding read
  read-key_of (contact_list a) = rw (
    text_of-maybe_word a.q,
    text_of-maybe_word a.status,
    text_of-maybe_word a.relation,
    bool_of-maybe_flag a.archived,
  )
  read-key_of (contact_page a) = refl
  read-key_of (contact_timeline a b c) = read-timeline a b c
  read-key_of (contact_options a) = refl
  read-key_of (organization_list a b) = refl
  read-key_of (organization_page a) = refl
  read-key_of (organization_contacts a) = refl
  read-key_of (organization_options a) = refl
  read-key_of (deal_list a) =
      rw (text_of-maybe_word a.q, text_of-maybe_word a.scope, bool_of-maybe_flag a.archived)
  read-key_of (deal_board a b) = rw (text_of-maybe_word a, text_of-maybe_word b)
  read-key_of (deal_page a) = refl
  read-key_of (deals_linked a b) = rw (
    text_of-maybe_word a.contact_id,
    text_of-maybe_word a.organization_id,
    text_of-maybe_word a.deal_id,
    text_of-maybe_word a.project_id,
  )
  read-key_of (deal_options a) = refl
  read-key_of (task_list a) =
      rw (text_of-maybe_word a.q, bool_of-maybe_flag a.done, bool_of-maybe_flag a.archived)
  read-key_of tasks_due = refl
  read-key_of (task_page a) = refl
  read-key_of (tasks_linked a b) = rw (
    text_of-maybe_word a.contact_id,
    text_of-maybe_word a.deal_id,
    text_of-maybe_word a.interaction_id,
  )
  read-key_of (task_options a) = refl
  read-key_of (interaction_list a b) =
      rw (text_of-maybe_word b.q, text_of-maybe_word b.kind, bool_of-maybe_flag b.archived)
  read-key_of (interaction_page a) = refl
  read-key_of (interaction_calendar a b) = refl
  read-key_of (interactions_linked a b) = rw (
    text_of-maybe_word a.contact_id,
    text_of-maybe_word a.organization_id,
    text_of-maybe_word a.deal_id,
    text_of-maybe_word a.project_id,
  )
  read-key_of (project_list a) = rw (text_of-maybe_word a.q, bool_of-maybe_flag a.archived)
  read-key_of (project_page a) = refl
  read-key_of (project_options a) = refl
  read-key_of (document_list a) = rw (text_of-maybe_word a.q, bool_of-maybe_flag a.archived)
  read-key_of (document_page a) = refl
  read-key_of (documents_linked a) = rw (
    text_of-maybe_word a.contact_id,
    text_of-maybe_word a.organization_id,
    text_of-maybe_word a.deal_id,
    text_of-maybe_word a.project_id,
  )
  read-key_of (document_content a b) = refl
  read-key_of (document_preview a b) = refl
  read-key_of (document_options a) = refl
  read-key_of (watch_list a) = rw (
    text_of-maybe_word a.q,
    scope_of-scope_value (or_due a.scope),
    text_of-maybe_word a.kind,
    bool_of-maybe_flag a.archived,
  )
  read-key_of watches_due = refl
  read-key_of (watch_page a) = refl
  read-key_of (watch_checks a b) = refl
  read-key_of (capture_list a b) = rw (tab_of-tab_value a)
  read-key_of (capture_page a) = refl
  read-key_of captures_count = refl
  read-key_of (search_hits a b c d) = rw (type_of-type_or_all b)
  read-key_of all_tags = refl
  read-key_of me = refl
  read-key_of briefing = refl
  read-key_of open_deals = refl
  read-key_of version = refl
  read-key_of health = refl
  read-key_of (metrics a) = refl

  -- Of the queries that `Asked` lists (all that ask the API; of the calendar's loop, the first request): two
  -- that share an entry of the cache, because their keys are the same, send the same request, at one
  -- moment, whichever functions built them.
  pub same_key-same_request :
      (a b : Asked)
      → key_of tomorrow a ≡ key_of tomorrow b
      → request_of tomorrow a ≡ request_of tomorrow b
  same_key-same_request a b h = sym (read-key_of a) ∙ ap (read tomorrow) h ∙ read-key_of b
