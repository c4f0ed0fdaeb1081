-- ===== src/Queries/Captures.antt =====
-- The inbox: the queries and writes of frontend-next/src/captures.ts.
use tiny_crm.Prelude.{codes, ℕ, true, false, [], ◌∷◌, ◌++◌, Text}
use tiny_crm.Queries.{
  word, flag, number, plain, Fields, Query, Write, name, field, filled_word, asks, writes, post,
  delete,
}

-- `INBOX_LIMIT`.
abbrev pub inbox_limit : ℕ
inbox_limit = 100

-- `CaptureStatus | 'archived'`.
pub data InboxTab : Type 0 where
  new converted dismissed archived : InboxTab

abbrev pub tab_value : InboxTab → Text
tab_value new = codes "new"
tab_value converted = codes "converted"
tab_value dismissed = codes "dismissed"
tab_value archived = codes "archived"

-- `...(status === 'archived' ? { status: 'all', archived: true } : { status })`.
abbrev pub status_fields : InboxTab → Fields
status_fields archived = field "status" (word (codes "all")) ∷ field "archived" (flag true) ∷ []
status_fields new = field "status" (word (tab_value new)) ∷ []
status_fields converted = field "status" (word (tab_value converted)) ∷ []
status_fields dismissed = field "status" (word (tab_value dismissed)) ∷ []

abbrev pub captures_query : InboxTab → Text → Query
captures_query status search = record {
  key = name "captures" ∷ name "list" ∷ plain (word (tab_value status)) ∷ plain (word search) ∷ [];
  request = asks "/captures/" [] (
      status_fields status
      ++ (field "search" (filled_word search) ∷ field "limit" (number inbox_limit) ∷ []));
  keeps_previous = true;
}

abbrev pub capture_query : Text → Query
capture_query id = record {
  key = name "captures" ∷ name "detail" ∷ plain (word id) ∷ [];
  request = asks "/captures/{capture_id}" (field "capture_id" (word id) ∷ []) [];
  keeps_previous = false;
}

abbrev pub capture_count_query : Query
capture_count_query = record {
  key = name "captures" ∷ name "count" ∷ [];
  request = asks "/captures/count" [] [];
  keeps_previous = false;
}

module _ {B : Type 0} where
  abbrev pub create_capture : B → Write B
  create_capture body = writes post "/captures/" [] body

  abbrev pub convert_capture : Text → B → Write B
  convert_capture id body =
      writes post "/captures/{capture_id}/convert" (field "capture_id" (word id) ∷ []) body

abbrev pub delete_capture : Text → Write Unit
delete_capture id = writes delete "/captures/{capture_id}" (field "capture_id" (word id) ∷ []) tt

abbrev pub archive_capture : Text → Write Unit
archive_capture id =
    writes post "/captures/{capture_id}/archive" (field "capture_id" (word id) ∷ []) tt

abbrev pub restore_capture : Text → Write Unit
restore_capture id =
    writes post "/captures/{capture_id}/restore" (field "capture_id" (word id) ∷ []) tt

abbrev pub dismiss_capture : Text → Write Unit
dismiss_capture id =
    writes post "/captures/{capture_id}/dismiss" (field "capture_id" (word id) ∷ []) tt
