-- ===== src/Queries/Organizations.antt =====
-- The organizations: frontend-next/src/organizations.ts.
use tiny_crm.Prelude.{ℕ, Bool, true, false, Option, [], ◌∷◌, Text}
use tiny_crm.Queries.{
  Plain, missing, word, flag, number, plain, Fields, Query, Write, Versioned, name, field,
  filled_word, asks, writes, post, patch, delete,
}
use tiny_crm.Queries.Contacts.{picker_limit}

-- `LIST_LIMIT` and `DETAIL_LIMIT`.
abbrev pub list_limit : ℕ
list_limit = 100

abbrev pub detail_limit : ℕ
detail_limit = 20

abbrev pub true_or_missing : Bool → Plain
true_or_missing true = flag true
true_or_missing false = missing

abbrev pub organizations_query : Text → Bool → Query
organizations_query search archived = record {
  key = name "organizations" ∷ name "list" ∷ plain (word search) ∷ plain (flag archived) ∷ [];
  request = asks "/organizations/" [] (
      field "limit" (number list_limit)
      ∷ field "search" (filled_word search)
      ∷ field "archived" (true_or_missing archived)
      ∷ []);
  keeps_previous = true;
}

abbrev pub organization_query : Text → Query
organization_query id = record {
  key = name "organizations" ∷ name "detail" ∷ plain (word id) ∷ [];
  request = asks "/organizations/{organization_id}" (field "organization_id" (word id) ∷ []) [];
  keeps_previous = false;
}

module _ {B : Type 0} where
  abbrev pub create_organization : B → Write B
  create_organization body = writes post "/organizations/" [] body

  abbrev pub update_organization : Text → B → Option ℕ → Write (Versioned B)
  update_organization id body version =
      writes patch "/organizations/{organization_id}" (field "organization_id" (word id) ∷ [])
        record { fields = body; version = version }

abbrev pub delete_organization : Text → Write Unit
delete_organization id =
    writes delete "/organizations/{organization_id}" (field "organization_id" (word id) ∷ []) tt

abbrev pub archive_organization : Text → Write Unit
archive_organization id =
    writes post "/organizations/{organization_id}/archive" (field "organization_id" (word id) ∷ [])
      tt

abbrev pub restore_organization : Text → Write Unit
restore_organization id =
    writes post "/organizations/{organization_id}/restore" (field "organization_id" (word id) ∷ [])
      tt

-- `linked`.
abbrev pub linked : Text → Fields
linked id = field "organization_id" (word id) ∷ field "limit" (number detail_limit) ∷ []

abbrev pub org_contacts_query : Text → Query
org_contacts_query id = record {
  key = name "contacts" ∷ name "by-organization" ∷ plain (word id) ∷ [];
  request = asks "/contacts/" [] (linked id);
  keeps_previous = false;
}

abbrev pub organization_options_query : Text → Query
organization_options_query search = record {
  key = name "organizations" ∷ name "options" ∷ plain (word search) ∷ [];
  request =
      asks "/organizations/" []
        (field "search" (filled_word search) ∷ field "limit" (number picker_limit) ∷ []);
  keeps_previous = true;
}
