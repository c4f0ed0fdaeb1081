-- ===== src/Queries/Interactions.antt =====
-- The activity: the queries and writes of frontend-next/src/interactions.ts (the calendar's pages are in
-- Paging.antt, what is overdue in Due.antt).
use tiny_crm.Prelude.{not, ℕ, Bool, true, false, Option, [], ◌∷◌, ◌++◌, Text}
use tiny_crm.Paging.{page_size, skip_of}
use tiny_crm.Queries.{
  or_first, or_first, or_first, word, flag, number, plain, object, Query, Write, Versioned, Link,
  name, field, maybe_word, maybe_flag, filled, set_flag, link_fields, or_first, asks, writes, post,
  patch, delete,
}

pub record InteractionFilters : Type 0 where
  pub q : Option Text
  pub kind : Option Text
  pub archived : Option Bool
  pub page : Option ℕ

abbrev pub interactions_query : Bool → InteractionFilters → Query
interactions_query upcoming f = record {
  key =
      name "interactions"
      ∷ name "list"
      ∷ plain (flag upcoming)
      ∷ object (
          field "q" (maybe_word f.q)
          ∷ field "kind" (maybe_word f.kind)
          ∷ field "archived" (maybe_flag f.archived)
          ∷ field "page" (number (or_first f.page))
          ∷ [])
      ∷ [];
  request = asks "/interactions/" [] (
      field "search" (filled f.q)
      ∷ field "kind" (maybe_word f.kind)
      ∷ field "upcoming" (flag upcoming)
      ∷ field "archived" (set_flag f.archived)
      ∷ field "skip" (number (skip_of (or_first f.page)))
      ∷ field "limit" (number page_size)
      ∷ []);
  keeps_previous = true;
}

abbrev pub interaction_query : Text → Query
interaction_query id = record {
  key = name "interactions" ∷ name "detail" ∷ plain (word id) ∷ [];
  request = asks "/interactions/{interaction_id}" (field "interaction_id" (word id) ∷ []) [];
  keeps_previous = false;
}

abbrev pub linked_interactions_query : Link → Option ℕ → Query
linked_interactions_query link page = record {
  key =
      name "interactions"
      ∷ name "linked"
      ∷ object (link_fields link)
      ∷ plain (number (or_first page))
      ∷ [];
  request = asks "/interactions/" [] (
      link_fields link
      ++ (field "skip" (number (skip_of (or_first page))) ∷ field "limit" (number page_size) ∷ []));
  keeps_previous = true;
}

-- `calendarInteractionsQuery`, with the first request of its loop; the later ones differ in `skip` alone.
abbrev pub calendar_interactions_query : Text → Text → Query
calendar_interactions_query occurred_after occurred_before = record {
  key =
      name "interactions"
      ∷ name "calendar"
      ∷ object (
          field "occurred_after" (word occurred_after)
          ∷ field "occurred_before" (word occurred_before)
          ∷ [])
      ∷ [];
  request = asks "/interactions/" [] (
      field "occurred_after" (word occurred_after)
      ∷ field "occurred_before" (word occurred_before)
      ∷ field "skip" (number 0)
      ∷ field "limit" (number 200)
      ∷ []);
  keeps_previous = true;
}

module _ {B : Type 0} where
  abbrev pub create_interaction : B → Write B
  create_interaction body = writes post "/interactions/" [] body

  abbrev pub update_interaction : Text → B → Option ℕ → Write (Versioned B)
  update_interaction id body version =
      writes patch "/interactions/{interaction_id}" (field "interaction_id" (word id) ∷ [])
        record { fields = body; version = version }

abbrev pub delete_interaction : Text → Write Unit
delete_interaction id =
    writes delete "/interactions/{interaction_id}" (field "interaction_id" (word id) ∷ []) tt

abbrev pub archive_interaction : Text → Write Unit
archive_interaction id =
    writes post "/interactions/{interaction_id}/archive" (field "interaction_id" (word id) ∷ []) tt

abbrev pub restore_interaction : Text → Write Unit
restore_interaction id =
    writes post "/interactions/{interaction_id}/restore" (field "interaction_id" (word id) ∷ []) tt

-- `useToggleHappened`.
abbrev pub toggle_happened : Text → Bool → Write Bool
toggle_happened id done =
    writes patch "/interactions/{interaction_id}" (field "interaction_id" (word id) ∷ []) (not done)
