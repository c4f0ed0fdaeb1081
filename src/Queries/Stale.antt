-- ===== src/Queries/Stale.antt =====
-- What a write makes stale: the filters that frontend-next/src/contacts.ts, deals.ts, tasks.ts,
-- interactions.ts, projects.ts, documents.ts, watches.ts, captures.ts and tags.ts give to
-- `invalidateQueries`. Whether the key of a filter matches that of a query is TanStack's: a parameter.
use tiny_crm.Prelude.{Bool, true, false, ◌&&◌, ◌||◌, not, List, [], ◌∷◌, map, Text, codes, text_eq}
use tiny_crm.Queries.{Part, Key, plain, word, name}

-- `{ queryKey, predicate }`.
pub record Filter : Type 0 where
  pub key : Key
  pub predicate : Key → Bool

abbrev pub always : Key → Bool
always k = true

abbrev pub all_under : Key → Filter
all_under key = record { key = key; predicate = always }

abbrev pub is_word : Text → Part → Bool
is_word t (plain (word s)) = text_eq s t
is_word t p = false

-- `q.queryKey[1] === t`.
abbrev pub second_is : Text → Key → Bool
second_is t [] = false
second_is t (a ∷ []) = false
second_is t (a ∷ b ∷ rest) = is_word t b

-- `q.queryKey[1] !== 'content' && q.queryKey[1] !== 'preview'`.
abbrev pub not_a_file : Key → Bool
not_a_file k = not (second_is (codes "content") k) && not (second_is (codes "preview") k)

abbrev pub timeline_key : Key
timeline_key = name "contacts" ∷ name "timeline" ∷ []

abbrev pub invalidate_tags : List Filter
invalidate_tags = all_under (name "tags" ∷ []) ∷ []

abbrev pub invalidate_contacts : List Filter
invalidate_contacts =
    all_under (name "contacts" ∷ [])
    ∷ all_under (name "organizations" ∷ [])
    ∷ all_under (name "tags" ∷ [])
    ∷ []

abbrev pub invalidate_deals : List Filter
invalidate_deals =
    all_under (name "deals" ∷ [])
    ∷ all_under (name "briefing" ∷ [])
    ∷ all_under (name "tasks" ∷ [])
    ∷ all_under timeline_key
    ∷ []

abbrev pub invalidate_tasks : List Filter
invalidate_tasks =
    all_under (name "tasks" ∷ [])
    ∷ all_under (name "briefing" ∷ [])
    ∷ all_under (name "projects" ∷ [])
    ∷ all_under timeline_key
    ∷ all_under (name "tags" ∷ [])
    ∷ []

abbrev pub invalidate_interactions : List Filter
invalidate_interactions =
    all_under (name "interactions" ∷ [])
    ∷ all_under (name "briefing" ∷ [])
    ∷ all_under timeline_key
    ∷ all_under (name "tags" ∷ [])
    ∷ []

abbrev pub invalidate_projects : List Filter
invalidate_projects =
    all_under (name "projects" ∷ [])
    ∷ record { key = name "documents" ∷ []; predicate = not_a_file }
    ∷ []

abbrev pub invalidate_documents : List Filter
invalidate_documents =
    record { key = name "documents" ∷ []; predicate = not_a_file }
    ∷ all_under timeline_key
    ∷ all_under (name "tags" ∷ [])
    ∷ []

abbrev pub invalidate_watches : List Filter
invalidate_watches = map all_under (
    (name "watches" ∷ []) ∷ (name "deals" ∷ []) ∷ (name "tasks" ∷ []) ∷ (name "briefing" ∷ []) ∷ [])

-- `keys`, and what a conversion adds to them.
abbrev pub converted_keys : Bool → List Key
converted_keys false = []
converted_keys true =
    (name "contacts" ∷ [])
    ∷ (name "organizations" ∷ [])
    ∷ (name "count" ∷ [])
    ∷ (name "interactions" ∷ [])
    ∷ []

abbrev pub invalidate_after_capture : Bool → List Filter
invalidate_after_capture converted =
    map all_under ((name "captures" ∷ []) ∷ (name "briefing" ∷ []) ∷ converted_keys converted)

module _ (matches : Key → Key → Bool) where
  abbrev pub reaches : List Filter → Key → Bool
  reaches [] k = false
  reaches (f ∷ fs) k = (matches f.key k && f.predicate k) || reaches fs k
