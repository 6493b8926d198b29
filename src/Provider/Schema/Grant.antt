-- ===== src/Provider/Schema/Grant.antt =====
-- `Schema` of internal/provider/scylla_resource_grant.go
use terraform_provider_scyll.Base.{[], ◌∷◌}
use terraform_provider_scyll.Provider.GrantResource.{GrantResourceModel}
use terraform_provider_scyll.Provider.Schema.{
  of_text, of_list, required, optional, computed, one_of_case_insensitive, attribute, Schema,
  text_datum, list_datum, Fields,
}

abbrev pub grant_schema : Schema
grant_schema = record {
  description = "Manages a privilege grant on a ScyllaDB resource.";
  attributes =
      attribute "id" of_text computed "The ID of the grant."
      ∷ attribute "role_name" of_text required "The role to which the privilege is granted."
      ∷ record (attribute "privilege" of_text required "The privilege to grant.") {
        string_validators =
            one_of_case_insensitive (
              "ALL PERMISSIONS" ∷ "ALTER" ∷ "AUTHORIZE" ∷ "CREATE" ∷ "DESCRIBE" ∷ "DROP" ∷ "MODIFY"
              ∷ "SELECT" ∷ [])
            ∷ [];
      }
      ∷ record (attribute "resource_type" of_text required
          "The type of resource (e.g., ALL KEYSPACES, KEYSPACE, TABLE).") {
            string_validators =
                one_of_case_insensitive ("ALL KEYSPACES" ∷ "KEYSPACE" ∷ "TABLE" ∷ []) ∷ [];
          }
      ∷ attribute "keyspace" of_text optional "The keyspace of the resource."
      ∷ attribute "identifier" of_text optional "The identifier of the resource (e.g., table name)."
      ∷ attribute "permissions" of_list computed "The recorded permission for the grant"
      ∷ [];
  blocks = [];
}

-- The model by the tags of its fields
abbrev pub fields_of_grant_resource : GrantResourceModel → Fields
fields_of_grant_resource m = record {
  attributes =
      ("id", text_datum m.id)
      ∷ ("role_name", text_datum m.role_name)
      ∷ ("privilege", text_datum m.privilege)
      ∷ ("resource_type", text_datum m.resource_type)
      ∷ ("keyspace", text_datum m.keyspace)
      ∷ ("identifier", text_datum m.identifier)
      ∷ ("permissions", list_datum m.permissions)
      ∷ [];
  blocks = [];
}
