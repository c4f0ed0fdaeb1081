-- ===== src/Queries/Contacts.antt =====
-- The contacts: frontend-next/src/contacts.ts.
use tiny_crm.Prelude.{ℕ, Bool, true, false, Option, none, some, List, [], ◌∷◌, Text, ◌-◌}
use tiny_crm.Paging.{page_size, skip_of}
use tiny_crm.Queries.{
  Plain, missing, word, flag, number, plain, object, Part, Query, Write, Versioned, name, field,
  maybe_word, maybe_flag, maybe_words, filled_word, filled, or_first, set_flag, asks, writes, post,
  patch, delete,
}

-- `PICKER_LIMIT`.
abbrev pub picker_limit : ℕ
picker_limit = 50

-- `notShown`, of the total and the number of items of a page, if there is one.
abbrev pub not_shown : Option (ℕ × ℕ) → ℕ
not_shown none = 0
not_shown (some (total, items)) = total - items

pub record ContactFilters : Type 0 where
  pub q : Option Text
  pub status : Option Text
  pub relation : Option Text
  pub archived : Option Bool
  pub page : Option ℕ

abbrev pub contacts_query : ContactFilters → Query
contacts_query f = record {
  key =
      name "contacts"
      ∷ name "list"
      ∷ object (
          field "q" (maybe_word f.q)
          ∷ field "status" (maybe_word f.status)
          ∷ field "relation" (maybe_word f.relation)
          ∷ field "archived" (maybe_flag f.archived)
          ∷ field "page" (number (or_first f.page))
          ∷ [])
      ∷ [];
  request = asks "/contacts/" [] (
      field "search" (filled f.q)
      ∷ field "lifecycle_status" (maybe_word f.status)
      ∷ field "relation_type" (maybe_word f.relation)
      ∷ field "archived" (set_flag f.archived)
      ∷ field "skip" (number (skip_of (or_first f.page)))
      ∷ field "limit" (number page_size)
      ∷ []);
  keeps_previous = true;
}

abbrev pub contact_query : Text → Query
contact_query id = record {
  key = name "contacts" ∷ name "detail" ∷ plain (word id) ∷ [];
  request = asks "/contacts/{contact_id}" (field "contact_id" (word id) ∷ []) [];
  keeps_previous = false;
}

pub record TimelineFilters : Type 0 where
  pub types : Option (List Text)
  pub archived : Option Bool

-- The filter in a key, and what is asked of it.
abbrev pub filter_part : Option TimelineFilters → Part
filter_part none = plain missing
filter_part (some f) =
    object (field "types" (maybe_words f.types) ∷ field "archived" (maybe_flag f.archived) ∷ [])

abbrev pub types_asked : Option TimelineFilters → Plain
types_asked none = missing
types_asked (some f) = maybe_words f.types

abbrev pub or_false : Option Bool → Bool
or_false none = false
or_false (some b) = b

abbrev pub archived_asked : Option TimelineFilters → Bool
archived_asked none = false
archived_asked (some f) = or_false f.archived

abbrev pub contact_timeline_query : Text → Option TimelineFilters → Option ℕ → Query
contact_timeline_query id filter page = record {
  key =
      name "contacts"
      ∷ name "timeline"
      ∷ plain (word id)
      ∷ filter_part filter
      ∷ plain (number (or_first page))
      ∷ [];
  request = asks "/contacts/{contact_id}/timeline" (field "contact_id" (word id) ∷ []) (
      field "types" (types_asked filter)
      ∷ field "archived" (flag (archived_asked filter))
      ∷ field "skip" (number (skip_of (or_first page)))
      ∷ field "limit" (number page_size)
      ∷ []);
  keeps_previous = true;
}

abbrev pub contact_options_query : Text → Query
contact_options_query search = record {
  key = name "contacts" ∷ name "options" ∷ plain (word search) ∷ [];
  request =
      asks "/contacts/" []
        (field "search" (filled_word search) ∷ field "limit" (number picker_limit) ∷ []);
  keeps_previous = true;
}

module _ {B : Type 0} where
  abbrev pub create_contact : B → Write B
  create_contact body = writes post "/contacts/" [] body

  abbrev pub update_contact : Text → B → Option ℕ → Write (Versioned B)
  update_contact id body version =
      writes patch "/contacts/{contact_id}" (field "contact_id" (word id) ∷ [])
        record { fields = body; version = version }

abbrev pub delete_contact : Text → Write Unit
delete_contact id = writes delete "/contacts/{contact_id}" (field "contact_id" (word id) ∷ []) tt

abbrev pub archive_contact : Text → Write Unit
archive_contact id =
    writes post "/contacts/{contact_id}/archive" (field "contact_id" (word id) ∷ []) tt

abbrev pub restore_contact : Text → Write Unit
restore_contact id =
    writes post "/contacts/{contact_id}/restore" (field "contact_id" (word id) ∷ []) tt
