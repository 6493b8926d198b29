-- ===== src/Provider/Schema/Role.antt =====
-- `Schema` of internal/provider/scylla_resource_role.go and scylla_data_source.go
use terraform_provider_scyll.Base.{false, none, some, [], ◌∷◌}
use terraform_provider_scyll.Provider.Framework.{null, known}
use terraform_provider_scyll.Provider.RoleResource.{RoleResourceModel, RoleDataSourceModel}
use terraform_provider_scyll.Provider.Schema.{
  of_text, of_flag, of_list, required, computed, optional_computed, use_state_for_unknown,
  attribute, Schema, text_datum, flag_datum, list_datum, Fields,
}

abbrev pub role_schema : Schema
role_schema = record {
  description = "Manages a ScyllaDB role.";
  attributes =
      record (attribute "id" of_text computed "The name of the role to look up.") {
        plan_modifiers = use_state_for_unknown ∷ [];
      }
      ∷ attribute "role" of_text required "The name of the role"
      ∷ record (attribute "can_login" of_flag optional_computed
          "whether a user can login as a role") { static_default = some false }
      ∷ record (attribute "is_superuser" of_flag optional_computed
          "whether the role is a superuser") { static_default = some false }
      ∷ attribute "member_of" of_list computed "a list of members of the role"
      ∷ [];
  blocks = [];
}

abbrev pub role_data_source_schema : Schema
role_data_source_schema = record {
  description = "";
  attributes =
      attribute "id" of_text required "The name of the role to look up."
      ∷ attribute "role" of_text computed "The name of the role"
      ∷ attribute "can_login" of_flag computed "whether a user can login as a role"
      ∷ attribute "is_superuser" of_flag computed "whether the role is a superuser"
      ∷ attribute "member_of" of_list computed "a list of members of the role"
      ∷ [];
  blocks = [];
}

-- The model by the tags of its fields
abbrev pub fields_of_role : RoleResourceModel → Fields
fields_of_role m = record {
  attributes =
      ("id", text_datum m.id)
      ∷ ("role", text_datum m.role)
      ∷ ("can_login", flag_datum m.can_login)
      ∷ ("is_superuser", flag_datum m.is_superuser)
      ∷ ("member_of", list_datum m.member_of)
      ∷ [];
  blocks = [];
}

-- A nil slice is a null list.
abbrev pub fields_of_role_data_source : RoleDataSourceModel → Fields
fields_of_role_data_source m = record {
  attributes =
      ("id", text_datum m.id)
      ∷ ("role", text_datum m.role)
      ∷ ("can_login", flag_datum m.can_login)
      ∷ ("is_superuser", flag_datum m.is_superuser)
      ∷ ("member_of", list_datum (elim m.member_of [ none ↦ null | some vs ↦ known vs ]))
      ∷ [];
  blocks = [];
}
