-- ===== src/Queries.antt =====
-- The query layer: what the screens ask the API for, under which key the answer is cached, and what a
-- write sends and makes stale (frontend-next/src/contacts.ts, organizations.ts, deals.ts, tasks.ts,
-- interactions.ts, projects.ts, documents.ts, watches.ts, captures.ts, search.ts, tags.ts, auth.ts,
-- metrics.ts, routes/_authed/index.tsx and routes/_authed/system.tsx).
-- A query is its key and the request its `queryFn` sends; the options that only time the fetches
-- (staleTime, gcTime, retry) are left out. A union of string literals is a text, and `undefined` is
-- `missing`, which the client leaves out of the request.
pub mod Contacts
pub mod Organizations
pub mod Deals
pub mod Tasks
pub mod Interactions
pub mod Projects
pub mod Documents
pub mod Watches
pub mod Captures
pub mod Search
pub mod Dashboard
pub mod Stale
pub mod Asked
pub mod Refreshed
pub mod Cached
pub mod Labels
mod Tests
use Prim.Native.String.{String}
use tiny_crm.Prelude.{
  ℕ, Bool, true, false, Option, none, some, List, [], ◌∷◌, ◌++◌, Text, codes, if◌then◌else◌,
}

-- A value of a query string, of a path or of a key.
pub data Plain : Type 0 where
  missing : Plain
  word : Text → Plain
  flag : Bool → Plain
  number : ℕ → Plain
  words : List Text → Plain

abbrev pub Fields : Type 0
Fields = List (Text × Plain)

pub data Part : Type 0 where
  plain : Plain → Part
  object : Fields → Part

-- `QueryKey`.
abbrev pub Key : Type 0
Key = List Part

pub data Method : Type 0 where
  get post patch put delete : Method

-- What `api.GET(path, { params: { path, query } })` sends.
pub record Request : Type 0 where
  pub method : Method
  pub path : Text
  pub params : Fields
  pub query : Fields

-- `queryOptions`; `keeps_previous` is `placeholderData: keepPreviousData`.
pub record Query : Type 0 where
  pub key : Key
  pub request : Request
  pub keeps_previous : Bool

-- A write and the body it sends.
pub record Write (B : Type 0) : Type 0 where
  pub sends : Request
  pub body : B

-- `{ ...body, version }`.
pub record Versioned (B : Type 0) : Type 0 where
  pub fields : B
  pub version : Option ℕ

-- `{ contact_id?, organization_id?, deal_id?, project_id? }`, spread into a query.
pub record Link : Type 0 where
  pub contact_id : Option Text
  pub organization_id : Option Text
  pub deal_id : Option Text
  pub project_id : Option Text

abbrev pub name : String → Part
name s = plain (word (codes s))

abbrev pub field : String → Plain → Text × Plain
field s v = (codes s, v)

-- An optional text, flag or list as it is, and `v || undefined`.
abbrev pub maybe_word : Option Text → Plain
maybe_word none = missing
maybe_word (some t) = word t

abbrev pub maybe_flag : Option Bool → Plain
maybe_flag none = missing
maybe_flag (some b) = flag b

abbrev pub maybe_words : Option (List Text) → Plain
maybe_words none = missing
maybe_words (some ts) = words ts

abbrev pub filled_word : Text → Plain
filled_word [] = missing
filled_word (c ∷ s) = word (c ∷ s)

abbrev pub filled : Option Text → Plain
filled none = missing
filled (some t) = filled_word t

abbrev pub set_flag : Option Bool → Plain
set_flag (some true) = flag true
set_flag (some false) = missing
set_flag none = missing

-- `page = 1`.
abbrev pub or_first : Option ℕ → ℕ
or_first none = 1
or_first (some page) = page

abbrev pub link_fields : Link → Fields
link_fields l =
    field "contact_id" (maybe_word l.contact_id)
    ∷ field "organization_id" (maybe_word l.organization_id)
    ∷ field "deal_id" (maybe_word l.deal_id)
    ∷ field "project_id" (maybe_word l.project_id)
    ∷ []

abbrev pub asks : String → Fields → Fields → Request
asks path params query = record { method = get; path = codes path; params = params; query = query }

abbrev pub writes : {B : Type 0} → Method → String → Fields → B → Write B
writes method path params body = record {
  sends = record { method = method; path = codes path; params = params; query = [] };
  body = body;
}
