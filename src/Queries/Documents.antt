-- ===== src/Queries/Documents.antt =====
-- The documents: the queries and writes of frontend-next/src/documents.ts (file names are in Safe.antt).
use tiny_crm.Prelude.{codes, ℕ, Bool, true, false, Option, none, some, List, [], ◌∷◌, ◌++◌, Text}
use tiny_crm.Paging.{page_size, skip_of}
use tiny_crm.Queries.{
  or_first, or_first, or_first, word, number, plain, object, Query, Write, Versioned, Link, name,
  field, maybe_word, maybe_flag, filled_word, filled, set_flag, link_fields, or_first, asks, writes,
  post, patch, put, delete,
}
use tiny_crm.Queries.Contacts.{picker_limit}

pub record DocumentFilters : Type 0 where
  pub q : Option Text
  pub archived : Option Bool
  pub page : Option ℕ

abbrev pub documents_query : DocumentFilters → Query
documents_query f = record {
  key =
      name "documents"
      ∷ name "list"
      ∷ object (
          field "q" (maybe_word f.q)
          ∷ field "archived" (maybe_flag f.archived)
          ∷ field "page" (number (or_first f.page))
          ∷ [])
      ∷ [];
  request = asks "/documents/" [] (
      field "search" (filled f.q)
      ∷ field "archived" (set_flag f.archived)
      ∷ field "skip" (number (skip_of (or_first f.page)))
      ∷ field "limit" (number page_size)
      ∷ []);
  keeps_previous = true;
}

abbrev pub document_query : Text → Query
document_query id = record {
  key = name "documents" ∷ name "detail" ∷ plain (word id) ∷ [];
  request = asks "/documents/{document_id}" (field "document_id" (word id) ∷ []) [];
  keeps_previous = false;
}

abbrev pub linked_documents_query : Link → Query
linked_documents_query link = record {
  key = name "documents" ∷ name "linked" ∷ object (link_fields link) ∷ [];
  request = asks "/documents/" [] (link_fields link ++ (field "limit" (number 50) ∷ []));
  keeps_previous = false;
}

-- `contentQuery` and `previewQuery`, of a document's id and `updated_at`.
abbrev pub content_query : Text → Text → Query
content_query id updated_at = record {
  key = name "documents" ∷ name "content" ∷ plain (word id) ∷ plain (word updated_at) ∷ [];
  request = asks "/documents/{document_id}/content" (field "document_id" (word id) ∷ []) [];
  keeps_previous = false;
}

abbrev pub preview_query : Text → Text → Query
preview_query id updated_at = record {
  key = name "documents" ∷ name "preview" ∷ plain (word id) ∷ plain (word updated_at) ∷ [];
  request = asks "/documents/{document_id}/preview" (field "document_id" (word id) ∷ []) [];
  keeps_previous = false;
}

module _ {B : Type 0} where
  abbrev pub update_document : Text → B → Option ℕ → Write (Versioned B)
  update_document id body version =
      writes patch "/documents/{document_id}" (field "document_id" (word id) ∷ [])
        record { fields = body; version = version }

abbrev pub delete_document : Text → Write Unit
delete_document id =
    writes delete "/documents/{document_id}" (field "document_id" (word id) ∷ []) tt

abbrev pub archive_document : Text → Write Unit
archive_document id =
    writes post "/documents/{document_id}/archive" (field "document_id" (word id) ∷ []) tt

abbrev pub restore_document : Text → Write Unit
restore_document id =
    writes post "/documents/{document_id}/restore" (field "document_id" (word id) ∷ []) tt

abbrev pub document_options_query : Text → Query
document_options_query search = record {
  key = name "documents" ∷ name "options" ∷ plain (word search) ∷ [];
  request =
      asks "/documents/" []
        (field "search" (filled_word search) ∷ field "limit" (number picker_limit) ∷ []);
  keeps_previous = true;
}

-- The entries of a multipart form: a file, or a text.
pub data Entry (F : Type 0) : Type 0 where
  file : F → Entry F
  line : Text → Entry F

pub record Upload : Type 0 where
  pub title : Text
  pub description : Option Text
  pub tags : List Text
  pub contact_ids : List Text
  pub organization_ids : List Text
  pub deal_ids : List Text
  pub project_ids : List Text

-- What the forms need of the browser: `JSON.stringify` of a list of texts.
module _ {F : Type 0} (stringify : List Text → Text) where
  -- `if (meta.description) form.append('description', meta.description)`.
  abbrev pub description_entry : Option Text → List (Text × Entry F)
  description_entry none = []
  description_entry (some []) = []
  description_entry (some (c ∷ s)) = (codes "description", line (c ∷ s)) ∷ []

  -- `uploadDocument`.
  abbrev pub upload_document : F → Upload → Write (List (Text × Entry F))
  upload_document f meta = writes post "/documents/" [] (
      (codes "file", file f) ∷ (codes "title", line meta.title) ∷ description_entry meta.description
      ++ ((codes "tags", line (stringify meta.tags))
          ∷ (codes "contact_ids", line (stringify meta.contact_ids))
          ∷ (codes "organization_ids", line (stringify meta.organization_ids))
          ∷ (codes "deal_ids", line (stringify meta.deal_ids))
          ∷ (codes "project_ids", line (stringify meta.project_ids))
          ∷ []))

module _ {F : Type 0} where
  -- `replaceContent`.
  abbrev pub replace_content : Text → F → Write (List (Text × Entry F))
  replace_content id f =
      writes put "/documents/{document_id}/content" (field "document_id" (word id) ∷ [])
        ((codes "file", file f) ∷ [])
