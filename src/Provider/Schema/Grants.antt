-- ===== src/Provider/Schema/Grants.antt =====
-- `Schema` of internal/provider/scylla_resource_table_grants.go and scylla_resource_keyspace_grants.go
use terraform_provider_scyll.Base.{String, false, List, [], ◌∷◌, map}
use terraform_provider_scyll.Base.Dict.{Dict}
use terraform_provider_scyll.Provider.Domains.{GrantModel}
use terraform_provider_scyll.Provider.TableGrants.{TableGrantsResourceModel}
use terraform_provider_scyll.Provider.KeyspaceGrants.{KeyspaceGrantsResourceModel}
use terraform_provider_scyll.Provider.Schema.{
  of_text, of_set, required, computed, use_state_for_unknown, requires_replace,
  one_of_case_insensitive, value_strings_are, size_at_least, unique_grant_roles, Attribute,
  attribute, Block, Schema, Datum, text_datum, set_datum, Fields,
}

-- The attribute `privileges` of a grant, with the privileges that it may hold
abbrev pub privileges_attribute : List String → Attribute
privileges_attribute allowed =
    record (attribute "privileges" of_set required
      "Privileges to grant (e.g. ALTER, SELECT, MODIFY).") {
        set_validators = value_strings_are (one_of_case_insensitive allowed) ∷ [];
      }

abbrev pub grant_attributes : List String → List Attribute
grant_attributes allowed =
    attribute "role" of_text required "Role to receive the privileges."
    ∷ privileges_attribute allowed
    ∷ []

abbrev grant_block : String → List String → Block
grant_block description allowed = record {
  name = "grant";
  single = false;
  description = description;
  attributes = grant_attributes allowed;
  validators = size_at_least 1 ∷ unique_grant_roles ∷ [];
}

abbrev pub table_privileges : List String
table_privileges = "ALTER" ∷ "AUTHORIZE" ∷ "DROP" ∷ "MODIFY" ∷ "SELECT" ∷ []

abbrev pub table_grants_schema : Schema
table_grants_schema = record {
  description =
      "Authoritatively manages all grants on a table. Any existing grants not specified in `grant` blocks are revoked on apply.";
  attributes =
      record (attribute "id" of_text computed "The table identifier as `keyspace.table`.") {
        plan_modifiers = use_state_for_unknown ∷ [];
      }
      ∷ record (attribute "keyspace" of_text required "The keyspace containing the table.") {
        plan_modifiers = requires_replace ∷ [];
      }
      ∷ record (attribute "table" of_text required "The table to manage grants for.") {
        plan_modifiers = requires_replace ∷ [];
      }
      ∷ [];
  blocks = grant_block "Privileges to grant to a role on the table." table_privileges ∷ [];
}

abbrev pub keyspace_privileges : List String
keyspace_privileges = "ALTER" ∷ "AUTHORIZE" ∷ "CREATE" ∷ "DROP" ∷ "MODIFY" ∷ "SELECT" ∷ []

abbrev pub keyspace_grants_schema : Schema
keyspace_grants_schema = record {
  description =
      "Authoritatively manages all grants on a keyspace. Any existing grants not specified in `grant` blocks are revoked on apply.";
  attributes =
      record (attribute "id" of_text computed "The keyspace name.") {
        plan_modifiers = use_state_for_unknown ∷ [];
      }
      ∷ record (attribute "keyspace" of_text required "The keyspace to manage grants for.") {
        plan_modifiers = requires_replace ∷ [];
      }
      ∷ [];
  blocks = grant_block "Privileges to grant to a role on the keyspace." keyspace_privileges ∷ [];
}

-- The models by the tags of their fields

abbrev pub fields_of_grant : GrantModel → Dict Datum
fields_of_grant g = ("role", text_datum g.role) ∷ ("privileges", set_datum g.privileges) ∷ []

abbrev pub fields_of_table_grants : TableGrantsResourceModel → Fields
fields_of_table_grants m = record {
  attributes =
      ("id", text_datum m.id)
      ∷ ("keyspace", text_datum m.keyspace)
      ∷ ("table", text_datum m.table)
      ∷ [];
  blocks = ("grant", map fields_of_grant m.grants) ∷ [];
}

abbrev pub fields_of_keyspace_grants : KeyspaceGrantsResourceModel → Fields
fields_of_keyspace_grants m = record {
  attributes = ("id", text_datum m.id) ∷ ("keyspace", text_datum m.keyspace) ∷ [];
  blocks = ("grant", map fields_of_grant m.grants) ∷ [];
}
