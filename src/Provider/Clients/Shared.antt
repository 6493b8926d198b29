-- ===== src/Provider/Clients/Shared.antt =====
-- The client that `Configure` of the provider hands out is the one that the resources and the data
-- source use.
use terraform_provider_scyll.Base.{◌≡◌, ◌≢◌, ◌⊎◌, Option, none, some, List, [], All}
use terraform_provider_scyll.Scylladb.Cluster.{Cluster}
use terraform_provider_scyll.Provider.Configure.{ConfigureResponse, configure}
use terraform_provider_scyll.Provider.Clients.{
  ProviderData, no_data, client_data, Registered, resources, data_sources,
}

-- What the framework passes on of a response
abbrev pub data_of : Option Cluster → ProviderData
data_of none = no_data
data_of (some c) = client_data c

-- Each of them, which has no client yet, ends with this one and adds no error.
abbrev pub AllTake : Option Cluster → ProviderData → List Registered → Type 0
AllTake client provided registered = All (λ x. x.configure none provided ≡ (client, [])) registered

-- All resources and data sources end with the same client.
abbrev pub AreServed : Option Cluster → ConfigureResponse → Type 0
AreServed client r =
    AllTake client (data_of r.resource_data) resources
    × AllTake client (data_of r.data_source_data) data_sources

abbrev pub IsShared : (Cluster → Type 0) → ConfigureResponse → Type 0
IsShared P r =
    ((r.diagnostics ≢ []) × AreServed none r)
    ⊎ ((c : Cluster) × (r.diagnostics ≡ []) × P c × AreServed (some c) r)
