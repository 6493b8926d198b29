-- ===== src/Provider/Clients.antt =====
-- `Metadata`, `Resources` and `DataSources` of internal/provider, and the `Configure` methods of the
-- resources and of the data source, which take the provider's client.
pub mod Shared
use terraform_provider_scyll.Base.{String, ◌<>◌, Option, none, some, List, [], ◌∷◌}
use terraform_provider_scyll.Scylladb.Cluster.{Cluster}
use terraform_provider_scyll.Provider.Framework.{Diagnostic, explained}

-- `req.ProviderData`: nil, a client, or a value of another type, by the name of that type
pub data ProviderData : Type 0 where
  no_data : ProviderData
  client_data : Cluster → ProviderData
  other_data : String → ProviderData

-- The client that is kept, from the one before, and the errors that are added. All five methods are
-- of this form; they differ in the summary of the error.
take_client : String → Option Cluster → ProviderData → Option Cluster × List Diagnostic
take_client summary client no_data = (client, [])
take_client summary client (client_data c) = (some c, [])
take_client summary client (other_data type_name) = (
  client,
  explained summary (
        "Expected *scylladb.Cluster, got: " <> type_name
        <> ". Please report this issue to the provider developers.")
      ∷ [],
)

-- A resource or a data source: its type's name, from that of the provider, and `Configure`
pub record Registered : Type 0 where
  pub type_name : String → String
  pub configure : Option Cluster → ProviderData → Option Cluster × List Diagnostic

unfoldable pub role_resource : Registered
unfolding take_client
role_resource = record {
  type_name = λ provider. provider <> "_role";
  configure = take_client "Unexpected Data Source Configure Type";
}

unfoldable pub grant_resource : Registered
unfolding take_client
grant_resource = record {
  type_name = λ provider. provider <> "_grant";
  configure = take_client "Unexpected Data Source Configure Type";
}

unfoldable pub table_grants_resource : Registered
unfolding take_client
table_grants_resource = record {
  type_name = λ provider. provider <> "_table_grants";
  configure = take_client "Unexpected Resource Configure Type";
}

unfoldable pub keyspace_grants_resource : Registered
unfolding take_client
keyspace_grants_resource = record {
  type_name = λ provider. provider <> "_keyspace_grants";
  configure = take_client "Unexpected Resource Configure Type";
}

unfoldable pub role_data_source : Registered
unfolding take_client
role_data_source = record {
  type_name = λ provider. provider <> "_role";
  configure = take_client "Unexpected Data Source Configure Type";
}

-- `Metadata` of the provider
abbrev pub provider_type_name : String
provider_type_name = "scylladb"

abbrev pub resources : List Registered
resources = role_resource ∷ grant_resource ∷ keyspace_grants_resource ∷ table_grants_resource ∷ []

abbrev pub data_sources : List Registered
data_sources = role_data_source ∷ []
