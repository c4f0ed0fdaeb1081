-- ===== src/Queries/Search.antt =====
-- The search and the tags: frontend-next/src/search.ts and tags.ts.
use tiny_crm.Prelude.{
  truthy, trim, length, filter, codes, leb, join, ℕ, Bool, true, false, Option, none, some, [], ◌∷◌,
  ◌++◌, Text, ◌-◌, ◌*◌, if◌then◌else◌, trim,
}
use tiny_crm.Forms.{or_empty}
use tiny_crm.Queries.{
  or_first, or_first, Request, or_first, Plain, missing, word, number, plain, Query, name, field,
  or_first, asks,
}

-- `DROPDOWN_LIMIT`, `OVERVIEW_LIMIT`, `MIN_QUERY_LENGTH`.
abbrev pub dropdown_limit : ℕ
dropdown_limit = 5

abbrev pub overview_limit : ℕ
overview_limit = 10

abbrev pub min_query_length : ℕ
min_query_length = 2

unfoldable pub is_searchable : Text → Bool
is_searchable q = leb min_query_length (length (trim q))

-- `SearchType`.
pub data SearchType : Type 0 where
  contacts organizations deals tasks interactions projects documents watches captures : SearchType

abbrev pub type_value : SearchType → Text
type_value contacts = codes "contacts"
type_value organizations = codes "organizations"
type_value deals = codes "deals"
type_value tasks = codes "tasks"
type_value interactions = codes "interactions"
type_value projects = codes "projects"
type_value documents = codes "documents"
type_value watches = codes "watches"
type_value captures = codes "captures"

-- `typeLabels`.
abbrev pub type_label : SearchType → Text
type_label contacts = codes "Contacts"
type_label organizations = codes "Organizations"
type_label deals = codes "Deals"
type_label tasks = codes "Tasks"
type_label interactions = codes "Interactions"
type_label projects = codes "Projects"
type_label documents = codes "Documents"
type_label watches = codes "Watches"
type_label captures = codes "Inbox"

-- `type ?? 'all'`.
abbrev pub type_or_all : Option SearchType → Text
type_or_all none = codes "all"
type_or_all (some type) = type_value type

abbrev pub or_dropdown : Option ℕ → ℕ
or_dropdown none = dropdown_limit
or_dropdown (some limit) = limit

-- `type`, and `type ? (page - 1) * limit : undefined`.
abbrev pub type_asked : Option SearchType → Plain
type_asked none = missing
type_asked (some type) = word (type_value type)

abbrev pub skip_asked : Option SearchType → ℕ → ℕ → Plain
skip_asked none page limit = missing
skip_asked (some type) page limit = number ((page - 1) * limit)

abbrev pub search_query : Text → Option SearchType → Option ℕ → Option ℕ → Query
search_query q type page limit = record {
  key =
      name "search"
      ∷ plain (word q)
      ∷ plain (word (type_or_all type))
      ∷ plain (number (or_first page))
      ∷ plain (number (or_dropdown limit))
      ∷ [];
  request = asks "/search/" [] (
      field "q" (word q)
      ∷ field "type" (type_asked type)
      ∷ field "limit" (number (or_dropdown limit))
      ∷ field "skip" (skip_asked type (or_first page) (or_dropdown limit))
      ∷ []);
  keeps_previous = true;
}

-- `enabled: isSearchable(q)`: what a search box sends, if it sends anything.
unfoldable pub searched : Text → Option SearchType → Option ℕ → Option ℕ → Option Request
unfolding is_searchable
searched q type page limit =
    if is_searchable q then some ((search_query q type page limit).request) else none

-- `hitLink`: the route and the name of its parameter.
abbrev pub hit_link : SearchType → Text × Text
hit_link contacts = (codes "/contacts/$contactId", codes "contactId")
hit_link organizations = (codes "/organizations/$organizationId", codes "organizationId")
hit_link deals = (codes "/deals/$dealId", codes "dealId")
hit_link tasks = (codes "/tasks/$taskId", codes "taskId")
hit_link interactions = (codes "/interactions/$interactionId", codes "interactionId")
hit_link projects = (codes "/projects/$projectId", codes "projectId")
hit_link documents = (codes "/documents/$documentId", codes "documentId")
hit_link watches = (codes "/watches/$watchId", codes "watchId")
hit_link captures = (codes "/inbox/$captureId", codes "captureId")

pub record HitDate : Type 0 where
  pub label : Text
  pub at : Option Text
  pub day : Option Text

pub record HitMatch : Type 0 where
  pub field_name : Text
  pub excerpt : Text

-- `hitDate` and `hitMeta`, with `formatDate` and `formatDay` of format.ts in the reader's zone and language.
module _ (format_date format_day : Text → Text) where
  abbrev pub day_text : Option Text → Option Text
  day_text none = none
  day_text (some []) = none
  day_text (some (c ∷ s)) = some (format_day (c ∷ s))

  abbrev pub date_text : Option Text → Option Text → Option Text
  date_text none day = day_text day
  date_text (some []) day = day_text day
  date_text (some (c ∷ s)) day = some (format_date (c ∷ s))

  abbrev pub labelled : Text → Option Text → Option Text
  labelled label none = none
  labelled label (some []) = none
  labelled [] (some (c ∷ s)) = some (c ∷ s)
  labelled (d ∷ label) (some (c ∷ s)) = some ((d ∷ label) ++ codes " " ++ (c ∷ s))

  abbrev pub hit_date : Option HitDate → Option Text
  hit_date none = none
  hit_date (some d) = labelled d.label (date_text d.at d.day)

  abbrev pub match_text : Option HitMatch → Text
  match_text none = []
  match_text (some m) = m.field_name ++ codes ": " ++ m.excerpt

  unfoldable pub hit_meta : Option Text → Option HitDate → Option HitMatch → Text
  unfolding join
  hit_meta subtitle date found =
      join (codes " · ")
        (filter truthy (or_empty subtitle ∷ or_empty (hit_date date) ∷ match_text found ∷ []))

-- `tagsQuery`.
abbrev pub tags_query : Query
tags_query = record { key = name "tags" ∷ []; request = asks "/tags" [] []; keeps_previous = false }
