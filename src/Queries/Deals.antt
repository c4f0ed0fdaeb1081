-- ===== src/Queries/Deals.antt =====
-- The deals: the queries and writes of frontend-next/src/deals.ts (moveDeal is in MoveDeal.antt).
use tiny_crm.Prelude.{codes, ℕ, Bool, true, false, Option, none, some, [], ◌∷◌, ◌++◌, Text}
use tiny_crm.Paging.{page_size, skip_of}
use tiny_crm.Queries.{
  Plain, missing, word, flag, number, plain, object, Fields, Query, Write, Versioned, Link, name,
  field, maybe_word, maybe_flag, filled_word, filled, link_fields, or_first, asks, writes, post,
  patch, delete,
}
use tiny_crm.Queries.Contacts.{picker_limit}
use tiny_crm.Deals.{Stage, stage_value}
use tiny_crm.Deals.Scopes.{Status, opened, active, winning, finished, Status, scope_query}

pub record DealFilters : Type 0 where
  pub q : Option Text
  pub scope : Option Text
  pub archived : Option Bool
  pub page : Option ℕ

-- `scopeQuery(scope)`, spread into the query.
abbrev pub status_plain : Option Status → Plain
status_plain none = missing
status_plain (some opened) = word (codes "open")
status_plain (some active) = word (codes "active")
status_plain (some winning) = word (codes "won")
status_plain (some finished) = word (codes "finished")

abbrev pub stage_plain : Option Stage → Plain
stage_plain none = missing
stage_plain (some stage) = word (stage_value stage)

abbrev pub true_or_missing : Bool → Plain
true_or_missing true = flag true
true_or_missing false = missing

abbrev pub scope_fields : Option Text → Fields
scope_fields scope =
    field "status" (status_plain (scope_query scope).status)
    ∷ field "stage" (stage_plain (scope_query scope).stage)
    ∷ field "stalled" (true_or_missing (scope_query scope).stalled)
    ∷ field "overdue" (true_or_missing (scope_query scope).overdue)
    ∷ []

-- `...(archived ? { archived: true } : scopeQuery(scope))`.
abbrev pub archive_or_scope : Option Bool → Option Text → Fields
archive_or_scope (some true) scope = field "archived" (flag true) ∷ []
archive_or_scope (some false) scope = scope_fields scope
archive_or_scope none scope = scope_fields scope

abbrev pub deals_query : DealFilters → Query
deals_query f = record {
  key =
      name "deals"
      ∷ name "list"
      ∷ object (
          field "q" (maybe_word f.q)
          ∷ field "scope" (maybe_word f.scope)
          ∷ field "archived" (maybe_flag f.archived)
          ∷ field "page" (number (or_first f.page))
          ∷ [])
      ∷ [];
  request = asks "/deals/" [] (
      field "search" (filled f.q) ∷ archive_or_scope f.archived f.scope
      ++ (field "skip" (number (skip_of (or_first f.page)))
          ∷ field "limit" (number page_size)
          ∷ []));
  keeps_previous = true;
}

-- `BOARD_LIMIT`.
abbrev pub board_limit : ℕ
board_limit = 200

abbrev pub board_query : Option Text → Option Text → Query
board_query q scope = record {
  key =
      name "deals"
      ∷ name "board"
      ∷ object (field "q" (maybe_word q) ∷ field "scope" (maybe_word scope) ∷ [])
      ∷ [];
  request =
      asks "/deals/" [] (
        field "search" (filled q) ∷ scope_fields scope
        ++ (field "limit" (number board_limit) ∷ []));
  keeps_previous = true;
}

abbrev pub deal_query : Text → Query
deal_query id = record {
  key = name "deals" ∷ name "detail" ∷ plain (word id) ∷ [];
  request = asks "/deals/{deal_id}" (field "deal_id" (word id) ∷ []) [];
  keeps_previous = false;
}

abbrev pub linked_deals_query : Link → Option ℕ → Query
linked_deals_query link page = record {
  key =
      name "deals"
      ∷ name "linked"
      ∷ object (link_fields link)
      ∷ plain (number (or_first page))
      ∷ [];
  request = asks "/deals/" [] (
      link_fields link
      ++ (field "skip" (number (skip_of (or_first page))) ∷ field "limit" (number page_size) ∷ []));
  keeps_previous = false;
}

abbrev pub deal_options_query : Text → Query
deal_options_query search = record {
  key = name "deals" ∷ name "options" ∷ plain (word search) ∷ [];
  request =
      asks "/deals/" []
        (field "search" (filled_word search) ∷ field "limit" (number picker_limit) ∷ []);
  keeps_previous = true;
}

module _ {B : Type 0} where
  abbrev pub create_deal : B → Write B
  create_deal body = writes post "/deals/" [] body

  abbrev pub update_deal : Text → B → Option ℕ → Write (Versioned B)
  update_deal id body version =
      writes patch "/deals/{deal_id}" (field "deal_id" (word id) ∷ [])
        record { fields = body; version = version }

abbrev pub delete_deal : Text → Write Unit
delete_deal id = writes delete "/deals/{deal_id}" (field "deal_id" (word id) ∷ []) tt

abbrev pub archive_deal : Text → Write Unit
archive_deal id = writes post "/deals/{deal_id}/archive" (field "deal_id" (word id) ∷ []) tt

abbrev pub restore_deal : Text → Write Unit
restore_deal id = writes post "/deals/{deal_id}/restore" (field "deal_id" (word id) ∷ []) tt
